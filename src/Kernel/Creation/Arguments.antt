-- ===== src/Kernel/Creation/Arguments.antt =====
-- The copy of the arguments that a new process keeps.
use tp2_so_nuevo.Prelude.{
  ℕ, zero, suc, ◌+◌, ◌-◌, ◌*◌, ◌/◌, ◌%◌, ◌^◌, true, false, ◌&&◌, leb, ltb, ap, ◌≤◌, ◌<◌, ◌≡◌, refl,
  sym, subst, ◌∙◌, List, [], ◌∷◌, Option, none, some, inl, inr, ◌⊎◌, arith, length, update,
  update_same, update_other, Option-cases, ℕ_discrete,
}
use tp2_so_nuevo.Kernel.Creation.{strings_size, write_string, store_word, copy_args}

-- The characters of a string and its NUL lie from `p` on.
abbrev pub HoldsString : (ℕ → ℕ) → ℕ → List ℕ → Type 0
HoldsString bytes p [] = bytes p ≡ 0
HoldsString bytes p (c ∷ cs) = (bytes p ≡ c) × HoldsString bytes (p + 1) cs

HoldsString-ext :
    (f g : ℕ → ℕ) (s : List ℕ) (p : ℕ)
    → ((a : ℕ) → p ≤ a → a < p + (length s + 1) → g a ≡ f a)
    → HoldsString f p s
    → HoldsString g p s
HoldsString-ext f g [] p same h = same p (omega arith) (omega arith) ∙ h
HoldsString-ext f g (c ∷ cs) p same (h, t) = (
  same p (omega arith) (omega arith) ∙ h,
  HoldsString-ext f g cs (p + 1) (λ a lo hi. same a (omega arith) (omega arith)) t,
)

write_string-Holds :
    (s : List ℕ) (p : ℕ) (bytes : ℕ → ℕ)
    → HoldsString (write_string s p bytes) p s
      × ((a : ℕ) → (a < p) ⊎ (p + (length s + 1) ≤ a) → write_string s p bytes a ≡ bytes a)
unfolding write_string
write_string-Holds [] p bytes = (
  update_same bytes p 0,
  λ a outside.
      update_other bytes p a 0 (elim outside [ inl below ↦ omega arith | inr above ↦ omega arith ]),
)
write_string-Holds (c ∷ cs) p bytes =
    let (held, rest) = write_string-Holds cs (p + 1) (update bytes p c) in
    (
      (rest p (inl (omega arith)) ∙ update_same bytes p c, held),
      λ a outside.
          rest a (elim outside [ inl below ↦ inl (omega arith) | inr above ↦ inr (omega arith) ])
          ∙ update_other bytes p a c
              (elim outside [ inl below ↦ omega arith | inr above ↦ omega arith ]),
    )

-- The eight bytes of `v` lie from `at` on.
abbrev pub HoldsWord : (ℕ → ℕ) → ℕ → ℕ → Type 0
HoldsWord bytes at v = (j : ℕ) → j < 8 → bytes (at + j) ≡ v / 256 ^ j % 256

store_word-Holds : (at v : ℕ) (bytes : ℕ → ℕ) → HoldsWord (store_word at v bytes) at v
unfolding store_word
store_word-Holds at v bytes j lt =
    let from : leb at (at + j) ≡ true = ground arith in
    let to : ltb (at + j) (at + 8) ≡ true = ground arith in
    let e : at + j - at ≡ j = omega arith in rw (from, to) (ap (λ n. v / 256 ^ n % 256) e)

store_word_other :
    (at v a : ℕ) (bytes : ℕ → ℕ) → (a < at) ⊎ (at + 8 ≤ a) → store_word at v bytes a ≡ bytes a
unfolding store_word
store_word_other at v a bytes outside =
    let out : (leb at a && ltb a (at + 8)) ≡ false = ground arith in rw out refl

-- The pointer of a NULL entry stays NULL; the others point to a copy between `lo` and `hi`.
abbrev pub CopiedEntry : ℕ → ℕ → (ℕ → ℕ) → Option (List ℕ) → ℕ → Type 0
CopiedEntry lo hi bytes none at = HoldsWord bytes at 0
CopiedEntry lo hi bytes (some s) at =
    (p : ℕ) × HoldsWord bytes at p × (lo ≤ p) × (p + (length s + 1) ≤ hi) × HoldsString bytes p s

CopiedEntry-mono :
    (lo lo' hi hi' : ℕ) (bytes : ℕ → ℕ) (o : Option (List ℕ)) (at : ℕ)
    → lo' ≤ lo
    → hi ≤ hi'
    → CopiedEntry lo hi bytes o at
    → CopiedEntry lo' hi' bytes o at
CopiedEntry-mono lo lo' hi hi' bytes none at a b h = h
CopiedEntry-mono lo lo' hi hi' bytes (some s) at a b (p, w, l, u, h) =
    (p, w, omega arith, omega arith, h)

-- The address is neither in the pointers `i` up to `i + n` of the block nor in the pool.
abbrev pub Beside : ℕ → ℕ → ℕ → ℕ → ℕ → ℕ → Type 0
Beside block i n pool size a =
    ((a < block + 8 * i) ⊎ (block + 8 * (i + n) ≤ a)) × ((a < pool) ⊎ (pool + size ≤ a))

-- What copying entries `i` up to `i + n` does.
pub record Copied (block : ℕ) (argv : ℕ → Option (List ℕ)) (i n pool : ℕ) (bytes after : ℕ → ℕ)
    : Type 0 where
  pub rest : (a : ℕ) → Beside block i n pool (strings_size argv i n) a → after a ≡ bytes a
  pub entries :
      (j : ℕ)
      → i ≤ j
      → j < i + n
      → CopiedEntry pool (pool + strings_size argv i n) after (argv j) (block + 8 * j)

strings_size-none :
    (argv : ℕ → Option (List ℕ)) (i n : ℕ)
    → argv i ≡ none
    → strings_size argv i (suc n) ≡ strings_size argv (i + 1) n
unfolding strings_size
strings_size-none argv i n e = rw (e, strings_size) refl

strings_size-some :
    (argv : ℕ → Option (List ℕ)) (i n : ℕ) (s : List ℕ)
    → argv i ≡ some s
    → strings_size argv i (suc n) ≡ length s + 1 + strings_size argv (i + 1) n
unfolding strings_size
strings_size-some argv i n s e = rw (e, strings_size) refl

-- The pointer of entry `i` is not touched any more.
first_word :
    (block : ℕ) (argv : ℕ → Option (List ℕ)) (i n pool v : ℕ) (bytes r : ℕ → ℕ)
    → Copied block argv (i + 1) n pool (store_word (block + 8 * i) v bytes) r
    → block + 8 * (i + 1) ≤ pool
    → HoldsWord r (block + 8 * i) v
first_word block argv i n pool v bytes r c room j lt =
    c.rest (block + 8 * i + j) (inl (omega arith), inl (omega arith))
    ∙ store_word-Holds (block + 8 * i) v bytes j lt

Copied-none :
    (block : ℕ) (argv : ℕ → Option (List ℕ)) (i n pool : ℕ) (bytes r : ℕ → ℕ)
    → argv i ≡ none
    → block + 8 * (i + 1) ≤ pool
    → Copied block argv (i + 1) n pool (store_word (block + 8 * i) 0 bytes) r
    → Copied block argv i (suc n) pool bytes r
Copied-none block argv i n pool bytes r e room c =
    let size = strings_size-none argv i n e in
    record {
      rest = λ a (by, off).
          c.rest a (
            elim by [ inl below ↦ inl (omega arith) | inr above ↦ inr (omega arith) ],
            elim off [ inl below ↦ inl below | inr above ↦ inr (omega (arith, size)) ],
          )
          ∙ store_word_other (block + 8 * i) 0 a bytes
              (elim by [ inl below ↦ inl (omega arith) | inr above ↦ inr (omega arith) ]);
      entries = λ j lo hi. elim (ℕ_discrete i j) [
        | yes same ↦
            subst
              (λ k.
                CopiedEntry pool (pool + strings_size argv i (suc n)) r (argv k) (block + 8 * k))
              same (rw e (first_word block argv i n pool 0 bytes r c room))
        | no ne ↦
            CopiedEntry-mono pool pool (pool + strings_size argv (i + 1) n)
              (pool + strings_size argv i (suc n)) r (argv j) (block + 8 * j) (omega arith)
              (omega (arith, size)) (c.entries j (omega (arith, ne)) (omega arith))
      ];
    }

Copied-some :
    (block : ℕ) (argv : ℕ → Option (List ℕ)) (i n pool : ℕ) (bytes r : ℕ → ℕ) (s : List ℕ)
    → argv i ≡ some s
    → block + 8 * (i + suc n) ≤ pool
    → Copied block argv
        (i + 1)
        n
        (pool + (length s + 1))
        (store_word (block + 8 * i) pool (write_string s pool bytes))
        r
    → Copied block argv i (suc n) pool bytes r
Copied-some block argv i n pool bytes r s e room c =
    let size = strings_size-some argv i n s e in
    let written = write_string s pool bytes in
    let (held, kept) = write_string-Holds s pool bytes in
    let hi = pool + strings_size argv i (suc n) in
    let string : HoldsString r pool s =
      HoldsString-ext written r s pool
        (λ a from to.
          c.rest a (inr (omega arith), inl (omega arith))
          ∙ store_word_other (block + 8 * i) pool a written (inr (omega arith)))
        held in
    let here : CopiedEntry pool hi r (some s) (block + 8 * i) = (
      pool,
      first_word block argv i n (pool + (length s + 1)) pool written r c (omega arith),
      omega arith,
      omega (arith, size),
      string,
    ) in
    record {
      rest = λ a (by, off).
          c.rest a (
            elim by [ inl below ↦ inl (omega arith) | inr above ↦ inr (omega arith) ],
            elim off [ inl below ↦ inl (omega arith) | inr above ↦ inr (omega (arith, size)) ],
          )
          ∙ store_word_other (block + 8 * i) pool a written
              (elim by [ inl below ↦ inl (omega arith) | inr above ↦ inr (omega arith) ])
          ∙ kept a (elim off [ inl below ↦ inl below | inr above ↦ inr (omega (arith, size)) ]);
      entries = λ j lo up. elim (ℕ_discrete i j) [
        | yes same ↦
            subst (λ k. CopiedEntry pool hi r (argv k) (block + 8 * k)) same
              (subst (λ o. CopiedEntry pool hi r o (block + 8 * i)) (sym e) here)
        | no ne ↦
            CopiedEntry-mono (pool + (length s + 1)) pool
              (pool + (length s + 1) + strings_size argv (i + 1) n) hi r (argv j) (block + 8 * j)
              (omega arith) (omega (arith, size)) (c.entries j (omega (arith, ne)) (omega arith))
      ];
    }

-- With the pool behind the pointers, the copy writes the pointers `i` up to `i + n` of the block and
-- `strings_size` characters from `pool` on, and no other byte; each pointer then leads to the same
-- string inside that pool, or is NULL as before.
pub copy_args-Copied :
    (n i block : ℕ) (argv : ℕ → Option (List ℕ)) (pool : ℕ) (bytes : ℕ → ℕ)
    → block + 8 * (i + n) ≤ pool
    → Copied block argv i n pool bytes (copy_args block argv i n pool bytes)
unfolding copy_args
copy_args-Copied zero i block argv pool bytes room = record {
  rest = λ a outside. refl;
  entries = λ j lo hi. absurd (omega arith);
}
copy_args-Copied (suc n) i block argv pool bytes room = elim (Option-cases (argv i)) [
  | inl e ↦
      rw (e, copy_args)
        (Copied-none block argv i n pool bytes _ e (omega arith) (
          copy_args-Copied n (i + 1) block argv pool (store_word (block + 8 * i) 0 bytes)
            (omega arith)))
  | inr (s, e) ↦
      rw (e, copy_args)
        (Copied-some block argv i n pool bytes _ s e (omega arith) (
          copy_args-Copied n (i + 1) block argv (pool + (length s + 1))
            (store_word (block + 8 * i) pool (write_string s pool bytes)) (omega arith)))
]
