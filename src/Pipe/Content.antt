-- ===== src/Pipe/Content.antt =====
-- The bytes that a pipe holds, oldest first, and the copying loops.
use tp2_so_nuevo.Prelude.{
  ℕ, zero, suc, ◌+◌, ◌%◌, ◌≤◌, ◌<◌, ◌≡◌, refl, sym, ap, subst, ◌∙◌, List, [], ◌∷◌, ◌++◌, arith,
  length, update,
}
use tp2_so_nuevo.Prelude.Ring
use tp2_so_nuevo.Pipe.{Pipe, pipe_buffer_size, read_bytes, write_bytes}

-- The `n` bytes from index `i` on, going round.
abbrev pub bytes_from : (ℕ → ℕ) → ℕ → ℕ → List ℕ
bytes_from = Ring.window pipe_buffer_size

abbrev pub content : Pipe → List ℕ
content p = bytes_from p.buffer p.read_idx p.count

-- Both indices are inside the buffer, and the writing one is `count` bytes after the reading one.
abbrev pub IsBuffer : Pipe → Type 0
IsBuffer p =
    (p.read_idx < pipe_buffer_size)
    × (p.count ≤ pipe_buffer_size)
    × (p.write_idx ≡ (p.read_idx + p.count) % pipe_buffer_size)

pub read_bytes_lem :
    (f : ℕ → ℕ) (n i : ℕ)
    → i < pipe_buffer_size
    → read_bytes f i n ≡ (bytes_from f i n, (i + n) % pipe_buffer_size)
unfolding read_bytes
read_bytes_lem f zero i lt =
    let here : i ≡ (i + 0) % pipe_buffer_size = omega arith in ap (λ j. ([], j)) here
read_bytes_lem f (suc n) i lt =
    let next : ((i + 1) % pipe_buffer_size) < pipe_buffer_size = omega arith in
    let e : ((i + 1) % pipe_buffer_size + n) % pipe_buffer_size ≡ (i + suc n) % pipe_buffer_size =
      omega arith in
    rw (read_bytes_lem f n ((i + 1) % pipe_buffer_size) next)
      (ap (λ j. (bytes_from f i (suc n), j)) e)

append_assoc : (xs ys zs : List ℕ) → (xs ++ ys) ++ zs ≡ xs ++ (ys ++ zs)
append_assoc [] ys zs = refl
append_assoc (x ∷ xs) ys zs = ap (◌∷◌ x) (append_assoc xs ys zs)

append_nil : (xs : List ℕ) → xs ++ [] ≡ xs
append_nil [] = refl
append_nil (x ∷ xs) = ap (◌∷◌ x) (append_nil xs)

-- What is written follows what was there.
pub write_bytes_lem :
    (bytes : List ℕ) (f : ℕ → ℕ) (i n : ℕ)
    → i < pipe_buffer_size
    → n + length bytes ≤ pipe_buffer_size
    → let (g, w) = write_bytes f ((i + n) % pipe_buffer_size) bytes in
      (bytes_from g i (n + length bytes) ≡ bytes_from f i n ++ bytes)
      × (w ≡ (i + (n + length bytes)) % pipe_buffer_size)
unfolding write_bytes
write_bytes_lem [] f i n lt fit =
    let e : n + 0 ≡ n = omega arith in
    (ap (bytes_from f i) e ∙ sym (append_nil (bytes_from f i n)), omega arith)
write_bytes_lem (x ∷ xs) f i n lt fit =
    let next : ((i + n) % pipe_buffer_size + 1) % pipe_buffer_size
        ≡ (i + suc n) % pipe_buffer_size =
      omega arith in
    let s : n + suc (length xs) ≡ suc n + length xs = omega arith in
    let g = update f ((i + n) % pipe_buffer_size) x in
    let (c, w) = write_bytes_lem xs g i (suc n) lt (omega arith) in
    subst
      (λ j.
        let (h, v) = write_bytes g j xs in
        (bytes_from h i (n + suc (length xs)) ≡ bytes_from f i n ++ (x ∷ xs))
        × (v ≡ (i + (n + suc (length xs))) % pipe_buffer_size))
      (sym next)
      (
        ap (bytes_from (write_bytes g ((i + suc n) % pipe_buffer_size) xs).0 i) s
            ∙ c
            ∙ ap (λ ys. ys ++ xs) (Ring.window-write pipe_buffer_size f i n x lt (omega arith))
            ∙ append_assoc (bytes_from f i n) (x ∷ []) xs,
        w ∙ ap (λ k. (i + k) % pipe_buffer_size) (sym s),
      )
