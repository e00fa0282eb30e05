-- ===== src/Fd/Lifetime.antt =====
-- The life of a descriptor of one end of a pipe.
use tp2_so_nuevo.Prelude.{
  ℕ, ◌+◌, ◌-◌, ◌<◌, ◌≡◌, ◌≢◌, refl, sym, ap, subst, ◌∙◌, true, false, Option, none, some, inl, inr,
  arith, ltb, leb, ◌==◌, if◌then◌else◌, update, update_same, update_other, Bool-cases, Option-cases,
  first_index,
}
use tp2_so_nuevo.Prelude.Search.{first_index_found, first_index_misses}
use tp2_so_nuevo.Fd.{
  FdType, fd_none, fd_pipe_read, fd_pipe_write, is_none, is_terminal, Fd, Fds, put, max_fds,
  fd_alloc, fd_get, notify_open, notify_close, incref_slot, fd_incref, settle, decref_slot,
  fd_decref, fd_create_pipe,
}

abbrev pub new_fd : FdType → Option ℕ → ℕ → Fd
new_fd kind pipe n = record { kind = kind; pipe = pipe; refcount = n }

get_used :
    (fd : ℕ) (fds : ℕ → Fd) (d : Fd)
    → fd < max_fds
    → fds fd ≡ d
    → is_none d.kind ≡ false
    → fd_get fd fds ≡ some fd
unfolding fd_get
get_used fd fds d inside at used =
    let i : leb max_fds fd ≡ false = ground arith in
    let u : is_none (fds fd).kind ≡ false = ap (λ e. is_none e.kind) at ∙ used in
    rw (i, u, fd_get) refl

incref-get :
    (fd : ℕ) (st : Fds) → fd_get fd st.fds ≡ some fd → fd_incref fd st ≡ incref_slot (some fd) st
unfolding fd_incref
incref-get fd st e = ap (λ o. incref_slot o st) e

decref-get :
    (fd : ℕ) (st : Fds) → fd_get fd st.fds ≡ some fd → fd_decref fd st ≡ decref_slot (some fd) st
unfolding fd_decref
decref-get fd st e = ap (λ o. decref_slot o st) e

-- A descriptor with one reference, after an increment of a fresh slot.
fresh-incref :
    (fd : ℕ) (kind : FdType) (pipe : Option ℕ) (st : Fds)
    → fd < max_fds
    → is_none kind ≡ false
    → let st' = fd_incref fd (put fd (new_fd kind pipe 0) st) in
      (st'.fds fd ≡ new_fd kind pipe 1)
      × (st'.pipes ≡ notify_open kind pipe st.pipes)
      × ((j : ℕ) → fd ≢ j → st'.fds j ≡ st.fds j)
fresh-incref fd kind pipe st inside used =
    let d = new_fd kind pipe 0 in
    let at : (put fd d st).fds fd ≡ d = update_same st.fds fd d in
    let step = incref-get fd (put fd d st) (get_used fd (put fd d st).fds d inside at used) in
    subst
      (λ s.
        (s.fds fd ≡ new_fd kind pipe 1)
        × (s.pipes ≡ notify_open kind pipe st.pipes)
        × ((j : ℕ) → fd ≢ j → s.fds j ≡ st.fds j))
      (sym step)
      (
        update_same (put fd d st).fds fd _
            ∙ ap {A = Fd} (λ e. record e { refcount = e.refcount + 1 }) at,
        ap {A = Fd} (λ e. notify_open e.kind e.pipe st.pipes) at,
        λ j ne. update_other (put fd d st).fds fd j _ ne ∙ update_other st.fds fd j d ne,
      )

-- The last reference goes.
last-decref :
    (fd : ℕ) (kind : FdType) (pipe : Option ℕ) (st : Fds)
    → fd < max_fds
    → is_none kind ≡ false
    → is_terminal kind ≡ false
    → st.fds fd ≡ new_fd kind pipe 1
    → let st' = fd_decref fd st in
      (st'.fds fd ≡ new_fd fd_none none 0)
      × (st'.pipes ≡ notify_close kind pipe st.pipes)
      × ((j : ℕ) → fd ≢ j → st'.fds j ≡ st.fds j)
unfolding settle
last-decref fd kind pipe st inside used pipe_end at =
    let step = decref-get fd st (get_used fd st.fds (new_fd kind pipe 1) inside at used) in
    let one : ltb 0 (st.fds fd).refcount ≡ true = ap {A = Fd} (λ e. ltb 0 e.refcount) at in
    let freed : settle (new_fd kind pipe 0) ≡ new_fd fd_none none 0 = rw pipe_end refl in
    subst
      (λ s.
        (s.fds fd ≡ new_fd fd_none none 0)
        × (s.pipes ≡ notify_close kind pipe st.pipes)
        × ((j : ℕ) → fd ≢ j → s.fds j ≡ st.fds j))
      (sym step)
      (subst
        (λ b.
          let s =
            if b
            then record {
              pipes = notify_close (st.fds fd).kind (st.fds fd).pipe st.pipes;
              fds =
                  update st.fds fd
                    (settle (record (st.fds fd) { refcount = (st.fds fd).refcount - 1 }));
            }
            else put fd (settle (st.fds fd)) st in
          (s.fds fd ≡ new_fd fd_none none 0)
          × (s.pipes ≡ notify_close kind pipe st.pipes)
          × ((j : ℕ) → fd ≢ j → s.fds j ≡ st.fds j))
        (sym one)
        (
          update_same st.fds fd _
              ∙ ap {A = Fd} (λ e. settle (record e { refcount = e.refcount - 1 })) at
              ∙ freed,
          ap {A = Fd} (λ e. notify_close e.kind e.pipe st.pipes) at,
          λ j ne. update_other st.fds fd j _ ne,
        ))

-- The end of a pipe that `write_end` names.
abbrev pub end_kind : ℕ → FdType
end_kind write_end = if write_end == 0 then fd_pipe_read else fd_pipe_write

end_kind-used :
    (write_end : ℕ)
    → (is_none (end_kind write_end) ≡ false) × (is_terminal (end_kind write_end) ≡ false)
end_kind-used write_end = elim (Bool-cases (write_end == 0)) [
  | inl reading ↦ rw reading (refl, refl)
  | inr writing ↦ rw writing (refl, refl)
]

created :
    (pipe write_end fd : ℕ) (st : Fds)
    → (fd_create_pipe (some pipe) write_end st).0 ≡ some fd
    → (fd < max_fds)
      × ((fd_create_pipe (some pipe) write_end st).1
          ≡ fd_incref fd (put fd (new_fd (end_kind write_end) (some pipe) 0) st))
unfolding fd_create_pipe fd_alloc
created pipe write_end fd st e =
    elim (Option-cases (first_index (λ i. is_none (st.fds i).kind) 0 max_fds)) [
      | inl full ↦ let bad : none ≡ some fd = rw full at e in absurd (ground arith)
      | inr (k, unused) ↦
          let same : some k ≡ some fd = rw unused at e in
          let k_fd : k ≡ fd = cc in
          let (hit, lo, hi) = first_index_found (λ i. is_none (st.fds i).kind) 0 max_fds k unused in
          (
            omega (arith, k_fd),
            rw unused
                (ap (λ i. fd_incref i (put i (new_fd (end_kind write_end) (some pipe) 0) st)) k_fd),
          )
    ]

-- A descriptor that is created for one end of a pipe has one reference and opens that end; when it
-- is dropped at once, the end is closed, the slot is free again, and no other slot has changed.
pub fd_decref-fd_create_pipe :
    (pipe write_end fd : ℕ) (st : Fds)
    → (fd_create_pipe (some pipe) write_end st).0 ≡ some fd
    → let kind = end_kind write_end in
      let st1 = (fd_create_pipe (some pipe) write_end st).1 in
      let st2 = fd_decref fd st1 in
      (st1.fds fd ≡ new_fd kind (some pipe) 1)
      × (st1.pipes ≡ notify_open kind (some pipe) st.pipes)
      × (st2.fds fd ≡ new_fd fd_none none 0)
      × (st2.pipes ≡ notify_close kind (some pipe) st1.pipes)
      × ((j : ℕ) → fd ≢ j → st2.fds j ≡ st.fds j)
fd_decref-fd_create_pipe pipe write_end fd st e =
    let kind = end_kind write_end in
    let (used, pipe_end) = end_kind-used write_end in
    let (inside, same) = created pipe write_end fd st e in
    let st1 = (fd_create_pipe (some pipe) write_end st).1 in
    let (one, open_end, others) =
      subst
        (λ s.
          (s.fds fd ≡ new_fd kind (some pipe) 1)
          × (s.pipes ≡ notify_open kind (some pipe) st.pipes)
          × ((j : ℕ) → fd ≢ j → s.fds j ≡ st.fds j))
        (sym same) (fresh-incref fd kind (some pipe) st inside used) in
    let (gone, closed_end, others') =
      last-decref fd kind (some pipe) st1 inside used pipe_end one in
    (one, open_end, gone, closed_end, λ j ne. others' j ne ∙ others j ne)

-- Where all descriptors are taken, none is created.
pub fd_create_pipe_full :
    (pipe write_end : ℕ) (st : Fds)
    → ((j : ℕ) → j < max_fds → is_none (st.fds j).kind ≡ false)
    → fd_create_pipe (some pipe) write_end st ≡ (none, st)
unfolding fd_create_pipe fd_alloc
fd_create_pipe_full pipe write_end st taken =
    let full : first_index (λ i. is_none (st.fds i).kind) 0 max_fds ≡ none =
      first_index_misses (λ i. is_none (st.fds i).kind) 0 max_fds
        (λ j lo hi. taken j (omega arith)) in
    rw full refl
