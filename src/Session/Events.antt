-- ===== src/Session/Events.antt =====
-- FreeClient and CreateClient of src/server/client.c, and the events of src/event/ae.c.
use cutis.Common.{
  ℕ, ◌≡◌, refl, sym, ap, ◌∙◌, ◌⊎◌, inl, inr, Bool, true, false, ◌&&◌, ◌||◌, Bool-cases, List, [],
  ◌∷◌, ◌++◌, arith, ◌==◌, ==_iff, if◌then◌else◌, ok, ◌>>=◌, Returns,
}
use cutis.Event.{FileEvent, ae_readable, ae_writable, drop_file_event, delete_file_event}
use cutis.Session.{Peers, del_client, free_client}

abbrev pub is_client : ℕ → List ℕ → Bool
is_client fd [] = false
is_client fd (c ∷ cs) = c == fd || is_client fd cs

removed :
    (fd : ℕ) (cs : List ℕ)
    → is_client fd cs ≡ true
    → Returns (del_client fd cs) (λ cs'.
      (before : List ℕ) × (after : List ℕ) × (cs ≡ before ++ fd ∷ after) × (cs' ≡ before ++ after))
unfolding del_client
removed fd [] h = absurd (ground (arith, h))
removed fd (c ∷ cs) h = elim (Bool-cases (c == fd)) [
  | inl here ↦ (cs, rw here refl, ([], cs, ap (λ d. d ∷ cs) ((==_iff c fd).0 here), refl))
  | inr there ↦
      let (cs', run, (before, after, split, left)) = removed fd cs (ground (arith, there, h)) in
      (
        c ∷ cs',
        rw there (ap (λ m. m >>= (λ cs'. ok (c ∷ cs'))) run),
        (c ∷ before, after, ap (λ l. c ∷ l) split, ap (λ l. c ∷ l) left),
      )
]

module _ {F : Type 0} where
  abbrev pub is_event : ℕ → ℕ → FileEvent F → Bool
  is_event fd mask fe = fe.fd == fd && fe.mask == mask

  abbrev pub has_event : ℕ → ℕ → List (FileEvent F) → Bool
  has_event fd mask [] = false
  has_event fd mask (fe ∷ fes) = is_event fd mask fe || has_event fd mask fes

  abbrev pub has_fd : ℕ → List (FileEvent F) → Bool
  has_fd fd [] = false
  has_fd fd (fe ∷ fes) = fe.fd == fd || has_fd fd fes

  -- Every event is for reading or for writing, and a descriptor has at most one of each.
  abbrev pub AreSingle : List (FileEvent F) → Type 0
  AreSingle [] = Unit
  AreSingle (fe ∷ fes) =
      ((fe.mask ≡ ae_readable) ⊎ (fe.mask ≡ ae_writable))
      × (has_event fe.fd fe.mask fes ≡ false)
      × AreSingle fes

  dropped_absent :
      (fd mask g m : ℕ) (fes : List (FileEvent F))
      → has_event g m fes ≡ false
      → has_event g m (drop_file_event fd mask fes) ≡ false
  unfolding drop_file_event
  dropped_absent fd mask g m [] h = refl
  dropped_absent fd mask g m (fe ∷ fes) h = elim (Bool-cases (is_event fd mask fe)) [
    | inl here ↦ rw here (ground (arith, h))
    | inr there ↦
        let apart : is_event g m fe ≡ false = ground (arith, h) in
        let rest : has_event g m fes ≡ false = ground (arith, h) in
        rw (there, apart) (dropped_absent fd mask g m fes rest)
  ]

  record Dropped (fd mask : ℕ) (fes fes' : List (FileEvent F)) : Type 0 where
    single : AreSingle fes'
    gone : has_event fd mask fes' ≡ false
    others :
        (g : ℕ) (m : ℕ) → ((fd == g && mask == m) ≡ false) → has_event g m fes' ≡ has_event g m fes

  drop_file_event-Dropped :
      (fd mask : ℕ) (fes : List (FileEvent F))
      → AreSingle fes
      → Dropped fd mask fes (drop_file_event fd mask fes)
  unfolding drop_file_event
  drop_file_event-Dropped fd mask [] single = record {
    single = tt;
    gone = refl;
    others = λ g m h. refl;
  }
  drop_file_event-Dropped fd mask (fe ∷ fes) (kind, alone, single) =
      elim (Bool-cases (is_event fd mask fe)) [
        | inl here ↦
            let is_fd : fe.fd ≡ fd = ground (arith, here) in
            let is_mask : fe.mask ≡ mask = ground (arith, here) in
            rw here (record {
              single = single;
              gone =
                  ap (λ m. has_event fd m fes) (sym is_mask)
                  ∙ ap (λ g. has_event g fe.mask fes) (sym is_fd)
                  ∙ alone;
              others = λ g m h.
                  let apart : is_event g m fe ≡ false = ground (arith, is_fd, is_mask, h) in
                  rw apart refl;
            })
        | inr there ↦
            let r = drop_file_event-Dropped fd mask fes single in
            rw there (record {
              single = (kind, dropped_absent fd mask fe.fd fe.mask fes alone, r.single);
              gone = rw there r.gone;
              others = λ g m h. ap (λ b. is_event g m fe || b) (r.others g m h);
            })
      ]

  no_event-fd :
      (fd : ℕ) (fes : List (FileEvent F))
      → AreSingle fes
      → has_event fd ae_readable fes ≡ false
      → has_event fd ae_writable fes ≡ false
      → has_fd fd fes ≡ false
  no_event-fd fd [] single reads writes = refl
  no_event-fd fd (fe ∷ fes) (kind, alone, single) reads writes =
      let other : (fe.fd == fd) ≡ false = ground (arith, kind, reads, writes) in
      let reads' : has_event fd ae_readable fes ≡ false = ground (arith, reads) in
      let writes' : has_event fd ae_writable fes ≡ false = ground (arith, writes) in
      rw other (no_event-fd fd fes single reads' writes')

  no_fd-event :
      (fd m : ℕ) (fes : List (FileEvent F)) → has_fd fd fes ≡ false → has_event fd m fes ≡ false
  no_fd-event fd m [] h = refl
  no_fd-event fd m (fe ∷ fes) h =
      let other : (fe.fd == fd) ≡ false = ground (arith, h) in
      let rest : has_fd fd fes ≡ false = ground (arith, h) in rw other (no_fd-event fd m fes rest)

  module _ {T : Type 0} where
    -- After FreeClient nothing of the client is left, and the others are as before.
    pub record Freed (fd : ℕ) (p p' : Peers F T) : Type 0 where
      pub single : AreSingle p'.el.file_events
      pub events :
          (g m : ℕ)
          → has_event g m p'.el.file_events
            ≡ (if fd == g then false else has_event g m p.el.file_events)
      pub left :
          (before : List ℕ) × (after : List ℕ) × (p.clients ≡ before ++ fd ∷ after)
          × (p'.clients ≡ before ++ after)

    -- FreeClient of a client of the server, where each event is for reading or for writing and
    -- no descriptor has two of the same kind, ends without a fault (its assertion holds): no
    -- event of the descriptor is left, the events of the other descriptors are as before, and
    -- exactly one entry goes from the list of the clients.
    pub free_client-Freed :
        (fd : ℕ) (p : Peers F T)
        → AreSingle p.el.file_events
        → is_client fd p.clients ≡ true
        → Returns (free_client fd p) (Freed fd p)
    unfolding free_client delete_file_event
    free_client-Freed fd p single known =
        let (clients, run, left) = removed fd p.clients known in
        let r = drop_file_event-Dropped fd ae_readable p.el.file_events single in
        let left_events : List (FileEvent F) =
          drop_file_event fd ae_writable (drop_file_event fd ae_readable p.el.file_events) in
        let w =
          drop_file_event-Dropped fd ae_writable (drop_file_event fd ae_readable p.el.file_events)
            r.single in
        (
          record {
            el = delete_file_event fd ae_writable (delete_file_event fd ae_readable p.el);
            clients = clients;
          },
          rw run refl,
          record {
            single = w.single;
            events = λ g m. elim (Bool-cases (fd == g)) [
              | inr other ↦ rw other (w.others g m (rw other refl) ∙ r.others g m (rw other refl))
              | inl same ↦
                  let none_left =
                    no_event-fd fd left_events w.single
                      (w.others fd ae_readable (ground arith) ∙ r.gone) w.gone in
                  rw same (
                    ap (λ i. has_event i m left_events) (sym ((==_iff fd g).0 same))
                    ∙ no_fd-event fd m left_events none_left)
            ];
            left = left;
          },
        )
