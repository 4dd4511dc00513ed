-- ===== src/Resource.antt =====
-- What the process opens, starts and ends: the calls that internal/app, internal/store and
-- cmd/gopanel make, in their order, and results with errors beside them.
use gopanel.Common.{
  Bool, true, false, List, [], ◌∷◌, ◌++◌, Option, none, some, Bytes, if◌then◌else◌,
}
use gopanel.Common.Result.{Result, ok, err}

-- The SQLite handle, the Docker client, and the goroutines of the cleanup, the poller and the server.
pub data Resource : Type 0 where
  database docker cleanup poller server : Resource

-- A diagnostic record is written with the name of its event.
pub data Event : Type 0 where
  begin end : Resource → Event
  recorded : (event : Bytes) → Event

abbrev pub Run : Type 0 → Type 0 → Type 0
Run E A = Result E A × List Event

abbrev after : {E A : Type 0} → List Event → Run E A → Run E A
after done (result, next) = (result, done ++ next)

infixl 5 ◌>>=◌
abbrev pub ◌>>=◌ : {E A B : Type 0} → Run E A → (A → Run E B) → Run E B
(ok a, done) >>= f = after done (f a)
(err e, done) >>= f = (err e, done)

abbrev same : Resource → Resource → Bool
same database database = true
same docker docker = true
same cleanup cleanup = true
same poller poller = true
same server server = true
same _ _ = false

abbrev end_top : Resource → List Resource → Option (List Resource)
end_top r [] = none
end_top r (top ∷ held) = if same r top then some held else none

abbrev pub step : Event → List Resource → Option (List Resource)
step (begin r) held = some (r ∷ held)
step (end r) held = end_top r held
step (recorded event) held = some held

abbrev pub proceed : List Event → Option (List Resource) → Option (List Resource)
proceed [] held = held
proceed (e ∷ events) none = none
proceed (e ∷ events) (some held) = proceed events (step e held)

-- What is open behind the events, the last opened first: `none` if something is ended that is not
-- the last thing begun.
abbrev pub open_after : List Event → List Resource → Option (List Resource)
open_after events held = proceed events (some held)
