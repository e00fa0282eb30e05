-- ===== src/Keyboard/Buffer.antt =====
-- The circular buffer of typed characters, against the list of what it holds.
use tp2_so_nuevo.Prelude.{
  ℕ, zero, suc, ◌+◌, ◌-◌, ◌/◌, ◌%◌, ◌≤◌, ◌<◌, ◌≡◌, refl, sym, ap, ap₂, subst, ◌∙◌, false, List, [],
  ◌∷◌, ◌++◌, inl, inr, arith, ltb, ◌==◌, if◌then◌else◌, length, update, Bool-cases,
}
use tp2_so_nuevo.Prelude.Ring
use tp2_so_nuevo.Keyboard.{
  Keyboard, buff_length, write_buff, get_from_buffer, read_loop, read_key_buff,
}

abbrev pub chars_from : (ℕ → ℕ) → ℕ → ℕ → List ℕ
chars_from = Ring.window buff_length

-- The characters, oldest first.
abbrev pub content : Keyboard → List ℕ
content k = chars_from k.buff k.start_index k.buff_size

-- Both indices are inside the buffer, and the writing one is `buff_size` places after the reading one.
abbrev pub IsBuffer : Keyboard → Type 0
IsBuffer k =
    (k.start_index < buff_length)
    × (k.buff_size ≤ buff_length)
    × (k.end_index ≡ (k.start_index + k.buff_size) % buff_length)

-- The characters that give way to one more.
abbrev pub pushed_out : Keyboard → List ℕ
pushed_out k = if ltb k.buff_size buff_length then [] else k.buff k.start_index ∷ []

full_write :
    (f : ℕ → ℕ) (s c : ℕ)
    → s < buff_length
    → f s ∷ chars_from (update f s c) ((s + 1) % buff_length) buff_length
      ≡ chars_from f s buff_length ++ (c ∷ [])
full_write f s c lt =
    let next : (s + 1) % buff_length < buff_length = omega arith in
    let back : ((s + 1) % buff_length + 255) % buff_length ≡ s = omega arith in
    ap (◌∷◌ (f s)) (
      ap (λ j. chars_from (update f j c) ((s + 1) % buff_length) buff_length) (sym back)
      ∙ Ring.window-write buff_length f ((s + 1) % buff_length) 255 c next (omega arith))

-- A typed character comes last; in a full buffer the oldest one gives way to it, and no other is lost.
pub write_buff-content :
    (c : ℕ) (k : Keyboard)
    → IsBuffer k
    → (pushed_out k ++ content (write_buff c k) ≡ content k ++ (c ∷ [])) × IsBuffer (write_buff c k)
unfolding write_buff
write_buff-content c k (lt, le, at) = elim (Bool-cases (ltb k.buff_size buff_length)) [
  | inl room ↦
      let one : k.buff_size + 1 ≡ suc k.buff_size = omega arith in
      rw room (
        ap (λ e. chars_from (update k.buff e c) k.start_index (k.buff_size + 1)) at
            ∙ ap
                (chars_from (update k.buff ((k.start_index + k.buff_size) % buff_length) c)
                  k.start_index)
                one
            ∙ Ring.window-write buff_length k.buff k.start_index k.buff_size c lt (ground arith),
        (lt, ground arith, omega arith),
      )
  | inr full ↦
      let size : k.buff_size ≡ buff_length = ground arith in
      let here : k.end_index ≡ k.start_index = omega arith in
      rw full (
        ap₂
              (λ e n.
                k.buff k.start_index
                ∷ chars_from (update k.buff e c) ((k.start_index + 1) % buff_length) n)
              here size
            ∙ full_write k.buff k.start_index c lt
            ∙ ap (λ n. chars_from k.buff k.start_index n ++ (c ∷ [])) (sym size),
        (omega arith, le, omega arith),
      )
]

-- One character is taken.
abbrev taken : Keyboard → Keyboard
taken k = record k { buff_size = k.buff_size - 1; start_index = (k.start_index + 1) % buff_length }

get_from_buffer_lem :
    (k : Keyboard) → 0 < k.buff_size → get_from_buffer k ≡ (k.buff k.start_index, taken k)
unfolding get_from_buffer
get_from_buffer_lem k some_left = let e : (k.buff_size == 0) ≡ false = ground arith in rw e refl

taken-content :
    (k : Keyboard) → 0 < k.buff_size → content k ≡ k.buff k.start_index ∷ content (taken k)
taken-content k some_left =
    let e : k.buff_size ≡ suc (k.buff_size - 1) = omega arith in
    ap (chars_from k.buff k.start_index) e

taken-IsBuffer : (k : Keyboard) → 0 < k.buff_size → IsBuffer k → IsBuffer (taken k)
taken-IsBuffer k some_left (lt, le, at) = (omega arith, omega arith, omega arith)

abbrev least : ℕ → ℕ → ℕ
least a b = if ltb a b then a else b

-- What is handed out, and what stays.
abbrev pub Parted : Keyboard → ℕ → List ℕ × Keyboard → Type 0
Parted k n (cs, k') = (content k ≡ cs ++ content k') × (length cs ≡ n) × IsBuffer k'

Parted-taken :
    (k : Keyboard) (n : ℕ) (r : List ℕ × Keyboard)
    → 0 < k.buff_size
    → Parted (taken k) n r
    → Parted k (suc n) (k.buff k.start_index ∷ r.0, r.1)
Parted-taken k n r some_left (split, count, ok) =
    (taken-content k some_left ∙ ap (◌∷◌ (k.buff k.start_index)) split, ap suc count, ok)

read_loop-Parted :
    (rest i : ℕ) (k : Keyboard)
    → IsBuffer k
    → Parted k (least rest ((k.buff_size + 1 - i) / 2)) (read_loop rest i k)
unfolding read_loop
read_loop-Parted zero i k ok = (refl, ground arith, ok)
read_loop-Parted (suc rest) i k ok = elim (Bool-cases (ltb i k.buff_size)) [
  | inl more ↦
      let some_left : 0 < k.buff_size = ground arith in
      let n = least rest ((k.buff_size - 1 + 1 - (i + 1)) / 2) in
      let count : suc n ≡ least (suc rest) ((k.buff_size + 1 - i) / 2) = ground arith in
      rw (more, get_from_buffer_lem k some_left)
        (subst
          (λ c. Parted k c (
            k.buff k.start_index ∷ (read_loop rest (i + 1) (taken k)).0,
            (read_loop rest (i + 1) (taken k)).1,
          ))
          count
          (Parted-taken k n (read_loop rest (i + 1) (taken k)) some_left
            (read_loop-Parted rest (i + 1) (taken k) (taken-IsBuffer k some_left ok))))
  | inr done ↦
      let count : least (suc rest) ((k.buff_size + 1 - i) / 2) ≡ 0 = ground arith in
      rw done (refl, sym count, ok)
]

-- A read takes the oldest characters, in their order, and leaves the others; but, for the bound of
-- its loop shrinks with the buffer, it takes no more than half of them, rounded up.
pub read_key_buff_half :
    (count : ℕ) (k : Keyboard)
    → IsBuffer k
    → Parted k (least count ((k.buff_size + 1) / 2)) (read_key_buff count k)
unfolding read_key_buff
read_key_buff_half count k ok =
    let e : k.buff_size + 1 - 0 ≡ k.buff_size + 1 = omega arith in
    subst (λ n. Parted k (least count (n / 2)) (read_loop count 0 k)) e
      (read_loop-Parted count 0 k ok)
