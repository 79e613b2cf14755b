-- ===== src/Files/Gateway/Log.antt =====
-- backend/app/files/gateway.py: every check that ends is on the record.
use cyber_companion.Base.{
  ℕ, suc, ◌+◌, ◌≡◌, refl, ap, sym, ◌∙◌, true, Option, none, some, some-injective, [], ◌∷◌, ◌++◌,
  arith, reverse-cons, take, ◌>>=◌,
}
use cyber_companion.Base.Text.{Text}
use cyber_companion.Files.Gateway.{
  FileOperation, PermissionsConfig, PathAccessResult, FileAccessLogRecord, FileAccessLog,
  FileSystem, log_file_access, list_file_access_logs, verdict, logged, finalize, check_path,
}

-- The record of a result, under an id and a time.
pub entry : PathAccessResult → ℕ → Text → FileAccessLogRecord
entry result id now = record {
  id = id;
  created_at = now;
  operation = result.operation;
  requested_path = result.requested_path;
  resolved_path = result.resolved_path;
  allowed = result.allowed;
  reason = result.reason;
}

module _ (fs : FileSystem) (config : PermissionsConfig) (requested_path : Text)
    (operation : FileOperation) where
  checked-store :
      (now : Text) (store : Option FileAccessLog) (o : Option PathAccessResult)
      (r : PathAccessResult) (store' : Option FileAccessLog)
      → (o >>= (λ q. some (finalize fs config requested_path operation now store q)))
        ≡ some (r, store')
      → logged fs config requested_path operation now store r ≡ store'
  unfolding finalize
  checked-store now store none r store' e = absurd (ground (arith, e))
  checked-store now store (some q) r store' e =
      let Pair : Type 0 = PathAccessResult × Option FileAccessLog in
      let same = some-injective _ _ e in
      ap (λ (x : Pair). logged fs config requested_path operation now store x.0) (sym same)
      ∙ ap (λ (x : Pair). x.1) same

  -- When the gateway has a store and logs, a check that ends, allowed or refused, leaves a listing of
  -- any length with its own record as the last, after the records that were listed before.
  pub check_path-logged :
      (now : Text) (log : FileAccessLog) (r : PathAccessResult) (store' : Option FileAccessLog)
      (limit : ℕ)
      → config.log_file_access ≡ true
      → check_path fs config requested_path operation now (some log) ≡ some (r, store')
      → (log' : FileAccessLog) × ((store' ≡ some log')
          × (list_file_access_logs (suc limit) log'
              ≡ list_file_access_logs limit log ++ entry r (log.last_id + 1) now ∷ []))
  unfolding check_path list_file_access_logs entry
  check_path-logged now log r store' limit on e = (
    log_file_access r now log,
    (
      sym (checked-store now (some log) (verdict fs config requested_path operation) r store' e)
          ∙ (unfold logged in rw on refl),
      unfold log_file_access in reverse-cons (entry r (log.last_id + 1) now) (take limit log.rows),
    ),
  )
