-- ===== src/Prover/Channels.antt =====
-- What tokio's `mpsc` channel promises: jobs leave in the order in which they entered.
use mojave.Base.{none, some, List, [], ◌∷◌, ◌++◌, map, ok, err, ◌≡◌}
use mojave.Prover.Jobs.{JobId, JobRecord}
use mojave.Prover.Service.{System}

module _ (system : System) where
  open system use {F, Input, Url, Channel, contents, send, recv}

  -- `recv` returns none only from a channel that is empty.
  pub record IsFifo : Type 0 where
    pub sends :
        (c c' : Channel) (r : JobRecord Input Url)
        → send c r ≡ (c', ok tt)
        → contents c' ≡ contents c ++ r ∷ []
    pub refuses :
        (c c' : Channel) (r : JobRecord Input Url) (e : F)
        → send c r ≡ (c', err e)
        → contents c' ≡ contents c
    pub receives :
        (c c' : Channel) (r : JobRecord Input Url)
        → recv c ≡ (c', some r)
        → contents c ≡ r ∷ contents c'
    pub waits : (c c' : Channel) → recv c ≡ (c', none) → contents c ≡ []

  abbrev pub ids : Channel → List JobId
  ids c = map (λ r. r.job_id) (contents c)
