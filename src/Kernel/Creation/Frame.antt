-- ===== src/Kernel/Creation/Frame.antt =====
-- What a new process finds on its stack.
use tp2_so_nuevo.Prelude.{
  ℕ, zero, suc, ◌+◌, ◌-◌, ◌*◌, ◌≤◌, ◌<◌, ◌≡◌, ◌≢◌, refl, sym, ap, ap₂, ◌∙◌, List, [], ◌∷◌, ◌++◌,
  inl, inr, ◌⊎◌, arith, length, replicate, update, update_same, update_other,
}
use mathlib.Core.List.{reverse, reverse-cons}
use tp2_so_nuevo.Kernel.Creation.{push_all, initial_frame, build_initial_stack}

-- The `n` words from address `a` on.
abbrev pub words_from : (ℕ → ℕ) → ℕ → ℕ → List ℕ
words_from w a zero = []
words_from w a (suc n) = w a ∷ words_from w (a + 8) n

words_from_above :
    (w : ℕ → ℕ) (b v n a : ℕ) → b < a → words_from (update w b v) a n ≡ words_from w a n
words_from_above w b v zero a lt = refl
words_from_above w b v (suc n) a lt =
    let ne : b ≢ a = omega arith in
    ap₂ (◌∷◌) (update_other w b a v ne) (words_from_above w b v n (a + 8) (omega arith))

append_one : (xs : List ℕ) (y : ℕ) (zs : List ℕ) → (xs ++ (y ∷ [])) ++ zs ≡ xs ++ (y ∷ zs)
append_one [] y zs = refl
append_one (x ∷ xs) y zs = ap (◌∷◌ x) (append_one xs y zs)

-- The values lie in memory in the opposite order, below what was there.
push_all-words :
    (vs : List ℕ) (sp n : ℕ) (w : ℕ → ℕ)
    → 8 * length vs ≤ sp
    → let (sp', w') = push_all vs sp w in
      (sp' + 8 * length vs ≡ sp)
      × (words_from w' sp' (length vs + n) ≡ reverse vs ++ words_from w sp n)
      × ((a : ℕ) → (a < sp') ⊎ (sp ≤ a) → w' a ≡ w a)
unfolding push_all
push_all-words [] sp n w room =
    let e : 0 + n ≡ n = omega arith in (omega arith, ap (words_from w sp) e, λ a outside. refl)
push_all-words (v ∷ vs) sp n w room =
    let w' = update w (sp - 8) v in
    let (place, held, rest) = push_all-words vs (sp - 8) (suc n) w' (omega arith) in
    let up : sp - 8 + 8 ≡ sp = omega arith in
    let count : suc (length vs) + n ≡ length vs + suc n = omega arith in
    (
      omega arith,
      ap (words_from (push_all vs (sp - 8) w').1 (push_all vs (sp - 8) w').0) count
          ∙ held
          ∙ ap₂ (λ y zs. reverse vs ++ (y ∷ zs)) (update_same w (sp - 8) v)
              (ap (λ a. words_from w' a n) up ∙ words_from_above w (sp - 8) v n sp (omega arith))
          ∙ sym (append_one (reverse vs) v (words_from w sp n))
          ∙ ap (λ xs. xs ++ words_from w sp n) (sym (reverse-cons v vs)),
      λ a outside.
          rest a (elim outside [ inl below ↦ inl below | inr above ↦ inr (omega arith) ])
          ∙ update_other w (sp - 8) a v
              (elim outside [ inl below ↦ omega arith | inr above ↦ omega arith ]),
    )

-- From the new `rsp` up, where `popState` and `iretq` read: R15 to R8, RSI with the arguments, RDI with
-- their number, RBP and RDX to RAX, then the entry, the code segment, the flags with interrupts on,
-- the top of the stack and SS. They are the 160 bytes below the top, and no other word changes.
pub build_initial_stack_lem :
    (top entry argc argv : ℕ) (w : ℕ → ℕ)
    → 160 ≤ top
    → let (rsp, w') = build_initial_stack top entry argc argv w in
      (rsp + 160 ≡ top)
      × (words_from w' rsp 20
          ≡ replicate 8 0 ++ (argv ∷ argc ∷ replicate 5 0) ++ (entry ∷ 0x08 ∷ 0x202 ∷ top ∷ 0 ∷ []))
      × ((a : ℕ) → (a < rsp) ⊎ (top ≤ a) → w' a ≡ w a)
unfolding build_initial_stack
build_initial_stack_lem top entry argc argv w room =
    push_all-words (initial_frame top entry argc argv) top 0 w room
