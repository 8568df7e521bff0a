-- ===== src/Config/Bounds.antt =====
-- The bounds that a configuration of src/server/server.c keeps.
use cutis.Common.{
  ℕ, ◌≡◌, refl, inl, inr, Bool, true, false, ◌||◌, Option, none, some, List, [], ◌∷◌, ◌++◌, arith,
  Bool-cases, if◌then◌else◌, Bytes, codes, ok, ◌>>=◌, Returns, ◌==◌,
}
use cutis.Common.Int.{pos, ltb_ℤ, ◌≤ℤ◌}
use cutis.Decimal.{atoi}
use cutis.Dump.{CutisStatus, cutis_ok, cutis_err}
use cutis.Request.{same_string}
use cutis.Sds.{sdstrim, sdssplitlen, split_from, sdstolower}
use cutis.Config.{
  SaveParam, Config, Files, append_server_save_params, reset_server_save_params, init_server_config,
  set_port, set_timeout, set_save, set_loglevel, set_logfile, set_databases, Verbosity, debug,
  notice, warning, set_one, set_two, directive, config_line, config_lines, load_server_config,
  configure,
}

abbrev pub AllTimed : List SaveParam → Type 0
AllTimed [] = Unit
AllTimed (sp ∷ sps) = ((pos 1 ≤ℤ sp.seconds) × (pos 0 ≤ℤ sp.changes)) × AllTimed sps

-- A port, at least one database and one second, and rules of at least one second.
pub record IsUsable (s : Config) : Type 0 where
  pub port_low : pos 1 ≤ℤ s.port
  pub port_high : s.port ≤ℤ pos 65535
  pub some_dbs : pos 1 ≤ℤ s.db_num
  pub some_time : pos 1 ≤ℤ s.max_idle_time
  pub timed : AllTimed s.save_params

AllTimed-append :
    (a : List SaveParam) (sp : SaveParam)
    → AllTimed a
    → (pos 1 ≤ℤ sp.seconds)
    → (pos 0 ≤ℤ sp.changes)
    → AllTimed (a ++ sp ∷ [])
AllTimed-append [] sp h low some_changes = ((low, some_changes), tt)
AllTimed-append (b ∷ a) sp (h, hs) low some_changes = (h, AllTimed-append a sp hs low some_changes)

init_server_config-IsUsable : IsUsable init_server_config
unfolding init_server_config append_server_save_params
init_server_config-IsUsable = record {
  port_low = omega arith;
  port_high = omega arith;
  some_dbs = omega arith;
  some_time = omega arith;
  timed =
      ((omega arith, omega arith), ((omega arith, omega arith), ((omega arith, omega arith), tt)));
}

-- An accepted directive leaves a usable configuration.
abbrev Keeps : Bool × Config → Type 0
Keeps r = r.0 ≡ true → IsUsable r.1

module _ (s : Config) (usable : IsUsable s) where
  set_port-Keeps : (v : Bytes) → Keeps (set_port v s)
  unfolding set_port
  set_port-Keeps v accepted = record {
    port_low = ground (arith, accepted);
    port_high = ground (arith, accepted);
    some_dbs = usable.some_dbs;
    some_time = usable.some_time;
    timed = usable.timed;
  }

  set_timeout-Keeps : (v : Bytes) → Keeps (set_timeout v s)
  unfolding set_timeout
  set_timeout-Keeps v accepted = record {
    port_low = usable.port_low;
    port_high = usable.port_high;
    some_dbs = usable.some_dbs;
    some_time = ground (arith, accepted);
    timed = usable.timed;
  }

  set_databases-Keeps : (v : Bytes) → Keeps (set_databases v s)
  unfolding set_databases
  set_databases-Keeps v accepted = record {
    port_low = usable.port_low;
    port_high = usable.port_high;
    some_dbs = ground (arith, accepted);
    some_time = usable.some_time;
    timed = usable.timed;
  }

  set_save-Keeps : (v w : Bytes) → Keeps (set_save v w s)
  unfolding set_save append_server_save_params
  set_save-Keeps v w =
      let refused : Bool = ltb_ℤ (atoi v) (pos 1) || ltb_ℤ (atoi w) (pos 0) in
      elim (Bool-cases (ltb_ℤ (atoi v) (pos 1) || ltb_ℤ (atoi w) (pos 0))) [
        | inl wrong ↦ rw wrong (λ accepted. usable)
        | inr right ↦ rw right λ accepted. record {
          port_low = usable.port_low;
          port_high = usable.port_high;
          some_dbs = usable.some_dbs;
          some_time = usable.some_time;
          timed =
              AllTimed-append s.save_params _ usable.timed (ground (arith, right))
                (ground (arith, right));
        }
      ]

  same_bounds :
      (t : Config)
      → t.port ≡ s.port
      → t.db_num ≡ s.db_num
      → t.max_idle_time ≡ s.max_idle_time
      → t.save_params ≡ s.save_params
      → IsUsable t
  same_bounds t port db_num time params = record {
    port_low = rw port usable.port_low;
    port_high = rw port usable.port_high;
    some_dbs = rw db_num usable.some_dbs;
    some_time = rw time usable.some_time;
    timed = rw params usable.timed;
  }

  Keeps-if : (b : Bool) (x y : Bool × Config) → Keeps x → Keeps y → Keeps (if b then x else y)
  Keeps-if true x y h k = h
  Keeps-if false x y h k = k

  same : (b : Bool) → Keeps (b, s)
  same b accepted = usable

  set_one-Keeps : (files : Files) (name v : Bytes) → Keeps (set_one files name v s)
  unfolding set_one set_loglevel set_logfile
  set_one-Keeps files name v =
      let level : (l : Verbosity) → Keeps (true, record s { verbosity = l }) = λ verbosity accepted.
        same_bounds (record s { verbosity = verbosity }) refl refl refl refl in
      let log : (b : Bool) (l : Option Bytes) → Keeps (b, record s { log_file = l }) =
        λ b log_file accepted. same_bounds (record s { log_file = log_file }) refl refl refl refl in
      let is = λ (w : Bytes). same_string name w in
      let levels = Keeps-if (same_string v (codes "debug")) _ _ (level debug) (
        Keeps-if (same_string v (codes "notice")) _ _ (level notice)
          (Keeps-if (same_string v (codes "warning")) _ _ (level warning) (same false))) in
      let logs =
        Keeps-if (same_string v (codes "stdout")) _ _ (log true none)
          (log (files.appends v) (some v)) in
      Keeps-if (is (codes "port")) _ _ (set_port-Keeps v) (
        Keeps-if (is (codes "timeout")) _ _ (set_timeout-Keeps v) (
          Keeps-if (is (codes "dir")) _ _ (same (files.enters v)) (
            Keeps-if (is (codes "loglevel")) _ _ levels (
              Keeps-if (is (codes "logfile")) _ _ logs
                (Keeps-if (is (codes "databases")) _ _ (set_databases-Keeps v) (same false))))))

  set_two-Keeps : (name v w : Bytes) → Keeps (set_two name v w s)
  unfolding set_two
  set_two-Keeps name v w =
      Keeps-if (same_string name (codes "save")) _ _ (set_save-Keeps v w) (same false)

  directive-Keeps :
      (files : Files) (name : Bytes) (args : List Bytes)
      → Returns (directive files (name ∷ args) s) Keeps
  unfolding directive
  directive-Keeps files name [] = ((false, s), refl, same false)
  directive-Keeps files name (v ∷ []) = (_, refl, set_one-Keeps files (sdstolower name) v)
  directive-Keeps files name (v ∷ w ∷ []) = (_, refl, set_two-Keeps (sdstolower name) v w)
  directive-Keeps files name (_ ∷ _ ∷ _ ∷ _) = ((false, s), refl, same false)

-- There is a token in every string.
split_from-cons :
    (sep : ℕ) (token s : Bytes)
    → (t : Bytes) × (ts : List Bytes) × (split_from sep token s ≡ t ∷ ts)
unfolding split_from
split_from-cons sep token [] = (token, [], refl)
split_from-cons sep token (c ∷ s) = elim (Bool-cases (c == sep)) [
  | inl here ↦ (token, split_from sep [] s, rw here refl)
  | inr apart ↦ rw apart (split_from-cons sep (token ++ c ∷ []) s)
]

config_line-Keeps :
    (files : Files) (buf : Bytes) (s : Config)
    → IsUsable s
    → Returns (config_line files buf s) Keeps
unfolding config_line sdssplitlen
config_line-Keeps files buf s usable = go (sdstrim (codes " \t\r\n") buf)
  where
    go :
        (line : Bytes)
        → Returns
            (elim line [
              | [] ↦ ok (true, s)
              | c ∷ line ↦
                  if c == b'#'
                  then ok (true, s)
                  else directive files (sdssplitlen b' ' (c ∷ line)) s
            ])
            Keeps
    go [] = ((true, s), refl, same s usable true)
    go (c ∷ line) = elim (Bool-cases (c == b'#')) [
      | inl comment ↦ rw comment ((true, s), refl, same s usable true)
      | inr apart ↦
          let (t, ts, split) = split_from-cons b' ' [] (c ∷ line) in
          rw (apart, split) (directive-Keeps s usable files t ts)
    ]

config_lines-IsUsable :
    (files : Files) (lines : List Bytes) (s : Config)
    → IsUsable s
    → Returns (config_lines files lines s) (λ r. r.0 ≡ cutis_ok → IsUsable r.1)
unfolding config_lines
config_lines-IsUsable files [] s usable = ((cutis_ok, s), refl, λ _. usable)
config_lines-IsUsable files (line ∷ lines) s usable =
    let (r, run, keeps) = config_line-Keeps files line s usable in
    elim (Bool-cases r.0) [
      | inl in_order ↦
          rw (run, ◌>>=◌, in_order) (config_lines-IsUsable files lines r.1 (keeps in_order))
      | inr wrong ↦ ((cutis_err, r.1), rw (run, ◌>>=◌, wrong) refl, λ e. absurd (ground (arith, e)))
    ]

abbrev pub UsableIfAny : Option Config → Type 0
UsableIfAny none = Unit
UsableIfAny (some s) = IsUsable s

accepted_lem :
    (ret : CutisStatus) (s : Config)
    → (ret ≡ cutis_ok → IsUsable s)
    → UsableIfAny (elim ret [ cutis_ok ↦ some s | cutis_err ↦ none ])
accepted_lem cutis_ok s keeps = keeps refl
accepted_lem cutis_err s keeps = tt

-- Reading the configuration, with no file or with any file, ends without a fault, and if the
-- server goes on then its port is from 1 to 65535, it has at least one database, clients may be
-- idle for at least a second, and every rule for saving has at least one second and no negative
-- number of changes.
pub configure-IsUsable :
    (files : Files) (args : List (Option (List Bytes))) → Returns (configure files args) UsableIfAny
unfolding configure load_server_config reset_server_save_params
configure-IsUsable files [] = (some init_server_config, refl, init_server_config-IsUsable)
configure-IsUsable files (none ∷ []) = (none, refl, tt)
configure-IsUsable files (some lines ∷ []) =
    let start = init_server_config-IsUsable in
    let ((ret, s), run, keeps) =
      config_lines-IsUsable files lines (reset_server_save_params init_server_config) (record {
        port_low = start.port_low;
        port_high = start.port_high;
        some_dbs = start.some_dbs;
        some_time = start.some_time;
        timed = tt;
      }) in
    (_, rw (run, ◌>>=◌) refl, accepted_lem ret s keeps)
configure-IsUsable files (_ ∷ _ ∷ _) = (none, refl, tt)
