-- ===== src/Cron/Rules.antt =====
-- When ServerCron of src/server/server.c saves, and which clients it takes away.
use cutis.Common.{
  ℕ, ◌+◌, ◌≡◌, ◌⊎◌, refl, ap, ◌∙◌, inl, inr, Bool, not, true, false, ◌||◌, ◌&&◌, List, [], ◌∷◌,
  arith, Bool-cases, ltb, leb,
}
use cutis.Common.Int.{ℤ, pos, negsuc, pos_part, neg_part, ltb_ℤ, sub_ℕ}
use cutis.Config.{SaveParam}
use cutis.Key.{sds_dict_type}
use cutis.Store.{Server}
use cutis.Store.Laws.{Db}
use cutis.Cron.{Connection, close_timeout_clients, is_due}

-- At least the changes of a rule are not saved, and more than its seconds have passed since the
-- last save.
abbrev pub wants_save : ℕ → Server → SaveParam → Bool
wants_save now s sp =
    leb (pos_part sp.changes) s.dirty
    && ltb (s.last_save + pos_part sp.seconds) (now + neg_part sp.seconds)

ltb_ℤ-later :
    (z : ℤ) (now start : ℕ)
    → ltb_ℤ z (sub_ℕ now start) ≡ ltb (start + pos_part z) (now + neg_part z)
ltb_ℤ-later (pos n) now start = ground arith
ltb_ℤ-later (negsuc n) now start = ground arith

not-ltb_ℤ : (z : ℤ) (n : ℕ) → not (ltb_ℤ (pos n) z) ≡ leb (pos_part z) n
not-ltb_ℤ (pos m) n = ground arith
not-ltb_ℤ (negsuc m) n = ground arith

pub is_due-wants_save :
    (now : ℕ) (s : Server) (sp : SaveParam) → is_due now s sp ≡ wants_save now s sp
unfolding is_due
is_due-wants_save now s sp =
    ap (λ late. not (ltb_ℤ (pos s.dirty) sp.changes) && late)
      (ltb_ℤ-later sp.seconds now s.last_save)
    ∙ ap (λ many. many && ltb (s.last_save + pos_part sp.seconds) (now + neg_part sp.seconds))
        (not-ltb_ℤ sp.changes s.dirty)

-- Whether some rule asks for a save.
abbrev pub any_due : ℕ → Server → List SaveParam → Bool
any_due now s [] = false
any_due now s (sp ∷ sps) = wants_save now s sp || any_due now s sps

-- The rules read the count of changes and the time of the last save only.
pub any_due-dicts :
    (now : ℕ) (s : Server) (ds : List Db) (sps : List SaveParam)
    → any_due now (record s { dicts = ds }) sps ≡ any_due now s sps
any_due-dicts now s ds [] = refl
any_due-dicts now s ds (sp ∷ sps) =
    ap (λ rest. wants_save now s sp || rest) (any_due-dicts now s ds sps)

-- More than `limit` seconds have passed since the last request of a client.
abbrev pub is_idle : ℕ → ℤ → Connection → Bool
is_idle now limit c = ltb (c.last_interaction + pos_part limit) (now + neg_part limit)

-- The second list is the first without the idle clients, in the same order.
abbrev pub OnlyActive : ℕ → ℤ → List Connection → List Connection → Type 0
OnlyActive now limit [] kept = kept ≡ []
OnlyActive now limit (c ∷ cs) kept =
    ((is_idle now limit c ≡ true) × OnlyActive now limit cs kept)
    ⊎ ((is_idle now limit c ≡ false)
        × ((rest : List Connection) × (kept ≡ c ∷ rest) × OnlyActive now limit cs rest))

pub close_timeout_clients-OnlyActive :
    (now : ℕ) (limit : ℤ) (cs : List Connection)
    → OnlyActive now limit cs (close_timeout_clients now limit cs)
unfolding close_timeout_clients
close_timeout_clients-OnlyActive now limit [] = refl
close_timeout_clients-OnlyActive now limit (c ∷ cs) =
    let rest = close_timeout_clients-OnlyActive now limit cs in
    elim (Bool-cases (is_idle now limit c)) [
      | inl idle ↦ rw (ltb_ℤ-later limit now c.last_interaction, idle) (inl (refl, rest))
      | inr active ↦
          rw (ltb_ℤ-later limit now c.last_interaction, active) (inr (refl, (_, refl, rest)))
    ]
