-- ===== src/Connection.antt =====
-- internal/store/store.go: the file of the database and its handle. What os, database/sql and the
-- pragmas say is an argument.
use gopanel.Common.{
  ℕ, Bool, true, false, not, List, [], ◌∷◌, Option, none, some, Bytes, codes, eqb, if◌then◌else◌,
  ◌==◌,
}
use gopanel.Common.Result.{Result, ok, err}
use gopanel.Resource.{begin, end, Run, database}

pub data FileInfo : Type 0 where
  missing inaccessible directory regular irregular : FileInfo

pub data OpenError : Type 0 where
  inspect_failed not_regular reopen_failed inspection_close_failed driver_failed ping_failed :
      OpenError
  check_failed integrity_failed pragma_failed foreign_keys_disabled chmod_failed close_failed :
      OpenError

pub record OpenEnv : Type 0 where
  pub file : FileInfo
  pub reopen_fails : Bool
  pub inspection_close_fails : Bool
  pub driver_fails : Bool
  pub ping_fails : Bool
  -- PRAGMA quick_check(1) and PRAGMA foreign_keys, `none` where the statement fails
  pub quick_check : Option Bytes
  pub foreign_keys : Option ℕ
  pub chmod_fails : Bool
  pub close_fails : Bool

-- `inspectDatabaseFile`: whether the file existed.
unfoldable pub inspect_database_file : OpenEnv → Result OpenError Bool
inspect_database_file env = elim env.file [
  | missing ↦ ok false
  | inaccessible ↦ err inspect_failed
  | directory ↦ err not_regular
  | irregular ↦ err not_regular
  | regular ↦
      if env.reopen_fails
      then err reopen_failed
      else if env.inspection_close_fails
      then err inspection_close_failed
      else ok true
]

-- `Ready`
unfoldable pub ready : OpenEnv → Result OpenError (Unit {0})
ready env = if env.ping_fails then err ping_failed else ok tt

unfoldable pub verify_database_integrity : Option Bytes → Result OpenError (Unit {0})
verify_database_integrity none = err check_failed
verify_database_integrity (some result) =
    if not (eqb result (codes "ok")) then err integrity_failed else ok tt

unfoldable pub verify_foreign_keys : Option ℕ → Result OpenError (Unit {0})
verify_foreign_keys none = err pragma_failed
verify_foreign_keys (some enabled) = if not (enabled == 1) then err foreign_keys_disabled else ok tt

abbrev and_then :
    Result OpenError (Unit {0}) → Result OpenError (Unit {0}) → Result OpenError (Unit {0})
and_then (err e) next = err e
and_then (ok done) next = next

unfoldable pub verify : OpenEnv → Result OpenError (Unit {0})
unfolding ready verify_database_integrity verify_foreign_keys
verify env =
    and_then (ready env)
      (and_then (verify_database_integrity env.quick_check) (verify_foreign_keys env.foreign_keys))

-- `closeAfterOpenFailure` with `wrapCloseError`
unfoldable pub close_after_open_failure : OpenEnv → OpenError → Run (List OpenError) (Unit {0})
close_after_open_failure env e =
    (err (if env.close_fails then e ∷ close_failed ∷ [] else e ∷ []), end database ∷ [])

abbrev pub secured :
    OpenEnv → (existed : Bool) → Result OpenError (Unit {0}) → Run (List OpenError) (Unit {0})
secured env existed (err e) = close_after_open_failure env e
secured env true (ok verified) = (ok tt, [])
secured env false (ok verified) =
    if env.chmod_fails then close_after_open_failure env chmod_failed else (ok tt, [])

abbrev pub begun : OpenEnv → Run (List OpenError) (Unit {0}) → Run (List OpenError) (Unit {0})
begun env (result, events) = (result, begin database ∷ events)

abbrev pub inspected : OpenEnv → Result OpenError Bool → Run (List OpenError) (Unit {0})
inspected env (err e) = (err (e ∷ []), [])
inspected env (ok existed) =
    if env.driver_fails
    then (err (driver_failed ∷ []), [])
    else begun env (secured env existed (verify env))

-- `Open`; a database that is open is closed by its owner.
unfoldable pub open_store : OpenEnv → Run (List OpenError) (Unit {0})
unfolding inspect_database_file verify close_after_open_failure
open_store env = inspected env (inspect_database_file env)
