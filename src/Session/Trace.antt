-- ===== src/Session/Trace.antt =====
-- The order of the calls: libmilter calls the functions of a mail behind `MAIL FROM`, and as long as
-- they return `SMFIS_CONTINUE`; an abort may come at any time.
use messasy.Base.{ℕ, ◌≡◌, Bool, true, false, some, List}
use messasy.Config.{SfsiStat}
use messasy.ConfigStore.{Configs}
use messasy.Session.{World, Env}
use messasy.Session.Incoming.{Call, envfrom, envrcpt, header, body, eom, abort, callback}
use messasy.Session.Invariant.{Phase, no_mail, in_mail}
use messasy.Session.Callbacks.{goes_on}
use messasy.Session.Others.{Other}

-- The calls that libmilter makes within a mail only.
abbrev pub allowed : Phase → Call → Bool
allowed in_mail c = true
allowed no_mail (envfrom a) = true
allowed no_mail abort = true
allowed no_mail (envrcpt a) = false
allowed no_mail (header f v) = false
allowed no_mail (body b) = false
allowed no_mail eom = false

-- A mail ends with its last call, or with a result other than `SMFIS_CONTINUE`.
abbrev pub after : Call → SfsiStat → Phase
after eom r = no_mail
after abort r = no_mail
after (envfrom a) r = goes_on r
after (envrcpt a) r = goes_on r
after (header f v) r = goes_on r
after (body b) r = goes_on r

-- Callbacks, and what other threads do between them.
pub data Trace {M : Type 0} (env : Env M)
    : Phase → List ℕ → World M → Phase → List ℕ → World M → Type 0 where
  done : {ph : Phase} {others : List ℕ} {w : World M} → Trace env ph others w ph others w
  calls :
      {ph ph' : Phase} {others more : List ℕ} {w v u : World M} (c : Call) (r : SfsiStat)
      → allowed ph c ≡ true
      → callback env c w ≡ some (r, v)
      → Trace env (after c r) others v ph' more u
      → Trace env ph others w ph' more u
  changes :
      {ph ph' : Phase} {others some_more more : List ℕ} {w v u : World M} (t : Configs)
      → Other others w.configs some_more t
      → v ≡ record w { configs = t }
      → Trace env ph some_more v ph' more u
      → Trace env ph others w ph' more u
