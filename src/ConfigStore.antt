-- ===== src/ConfigStore.antt =====
-- msy_config.c: the configurations in memory. A configuration is counted by those who use it; a
-- reload replaces the current one and frees the old one, at once or when it is last released.
-- Each of the three functions runs as one step, as under one lock. Address 0 is NULL, and a
-- configuration that has been freed leaves none behind.
pub mod Invariant
pub mod Retrieve
pub mod Release
pub mod Reload
pub mod Reachable
use messasy.Base.{
  ℕ, zero, suc, ◌+◌, ◌-◌, Bool, true, false, ◌&&◌, Option, none, some, List, [], ◌∷◌, ltb, ◌==◌,
  if◌then◌else◌, Ret, r_success, r_positive, r_error,
}
use messasy.Config.{Config}

-- `cf_ref_count` and `cf_reloaded`, with the values.
pub record Entry : Type 0 where
  pub ref_count : ℕ
  pub reloaded : Bool
  pub cfg : Config

-- `cur_cfg` and `config_reloading`; `next` is an address that was never used.
pub record Configs : Type 0 where
  pub at : ℕ → Option Entry
  pub cur : ℕ
  pub reloading : Bool
  pub next : ℕ

unfoldable pub put : ℕ → Option Entry → (ℕ → Option Entry) → ℕ → Option Entry
put c e at d = if d == c then e else at d

-- None for a use of freed memory, or of NULL.
unfoldable pub config_retrieve : Configs → Option (ℕ × Configs)
unfolding put
config_retrieve s = elim (s.at s.cur) [
  | none ↦ none
  | some e ↦
      some
        (s.cur, record s { at = put s.cur (some (record e { ref_count = e.ref_count + 1 })) s.at })
]

-- `free_config(cfg); config_reloading = FALSE;`
unfoldable pub free_config : ℕ → Configs → Configs
unfolding put
free_config c s = record s { at = put c none s.at; reloading = false }

unfoldable pub config_release : ℕ → Configs → Option Configs
unfolding put free_config
config_release c s = elim (s.at c) [
  | none ↦ none
  | some e ↦
      let n = e.ref_count - 1 in
      some (
        if e.reloaded && ltb n 1
        then free_config c s
        else record s { at = put c (some (record e { ref_count = n })) s.at })
]

-- The new configuration takes the place of the current one.
unfoldable pub switch : Config → Configs → Configs
unfolding put
switch cfg s = record s {
  at = put s.next (some (record { ref_count = 0; reloaded = false; cfg = cfg })) s.at;
  cur = s.next;
  next = s.next + 1;
}

-- What becomes of the old one.
unfoldable pub retire : ℕ → Configs → Option Configs
unfolding put free_config
retire old s = elim (s.at old) [
  | none ↦ none
  | some e ↦ some (
      if ltb e.ref_count 1
      then free_config old s
      else record s { at = put old (some (record e { reloaded = true })) s.at })
]

-- Its first argument is what `set_config` reads from the file.
unfoldable pub reload_config : Option Config → Configs → Option (Ret × Configs)
unfolding switch retire
reload_config none s = if s.reloading then some (r_positive, s) else some (r_error, s)
reload_config (some cfg) s =
    if s.reloading
    then some (r_positive, s)
    else if s.cur == 0
    then some (r_success, switch cfg s)
    else elim (retire s.cur (switch cfg (record s { reloading = true }))) [
      | none ↦ none
      | some t ↦ some (r_success, t)
    ]
