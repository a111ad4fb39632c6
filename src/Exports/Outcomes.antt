-- ===== src/Exports/Outcomes.antt =====
-- What a report task of backend/cmd/worker/main.go leaves behind.
use reimbursement_system.Base.{
  ℕ, ◌+◌, ◌≡◌, refl, inl, inr, ◌⊎◌, false, Option, some, List, [], ◌∷◌, map, arith, Bool-cases,
  Option-cases, Text, lit,
}
use reimbursement_system.AppErr.{Err, fault, driver}
use reimbursement_system.Store.{
  Env, Redis, ReportTask, World, M, ok, err, ◌>>◌, ignore_err, statement, command, is_ok,
  Result-cases, command-step, command-lost, ignore_err-step, ignore_err-lost,
}
use reimbursement_system.Reimbursements.Scope.{DetailRow}
use reimbursement_system.Sessions.{set}
use reimbursement_system.Exports.Csv.{write_all}
use reimbursement_system.Exports.{
  set_job, hset, or_failed, query_claims, export_rows, csv_row, header, put_object, handle_report,
  job_key, report_key, set_field, job_written, expire,
}

-- The call keeps the tables and the bucket.
abbrev Keeps : World → World → Type 0
Keeps w w' = (w'.db ≡ w.db) × (w'.objects ≡ w.objects)

dropped-Keeps :
    (f : Redis → Unit {0} × Redis) (e : Env) (w : World)
    → ((ignore_err tt (command f) e w).0 ≡ ok tt) × Keeps w (ignore_err tt (command f) e w).1
dropped-Keeps f e w = elim (Bool-cases (e.fails w.tick)) [
  | inl lost ↦
      let here =
        ignore_err-lost tt (command f) e w (fault driver) (record w { tick = w.tick + 1 })
          (command-lost f e w lost) in
      rw here (refl, (refl, refl))
  | inr ran ↦
      let here =
        ignore_err-step tt (command f) e w (f w.redis).0
          (record w { redis = (f w.redis).1; tick = w.tick + 1 }) (command-step f e w ran) in
      rw here (refl, (refl, refl))
]

hset-Keeps :
    (key field value : Text) (e : Env) (w : World)
    → ((hset key field value e w).0 ≡ ok tt) × Keeps w (hset key field value e w).1
hset-Keeps key field value e w = dropped-Keeps (λ r. (tt, set_field key field value r)) e w

then-Keeps :
    (m k : M (Unit {0})) (e : Env) (w : World)
    → ((m e w).0 ≡ ok tt) × Keeps w (m e w).1
    → ((k e (m e w).1).0 ≡ ok tt) × Keeps (m e w).1 (k e (m e w).1).1
    → (((m >> k) e w).0 ≡ ok tt) × Keeps w ((m >> k) e w).1
then-Keeps m k e w (ran, same) (ran', same') = (
  ground (arith, ran, ran'),
  (ground (arith, ran, same.0, same'.0), ground (arith, ran, same.1, same'.1)),
)

set_job-Keeps :
    (job status msg : Text) (e : Env) (w : World)
    → ((set_job job status msg e w).0 ≡ ok tt) × Keeps w (set_job job status msg e w).1
unfolding set_job
set_job-Keeps job status msg e w =
    let write : Redis → Unit {0} × Redis = λ r. (tt, job_written job status msg r) in
    then-Keeps (ignore_err tt (command write)) (expire (job_key job)) e w (dropped-Keeps write e w)
      (dropped-Keeps (λ r. (tt, r)) e (ignore_err tt (command write) e w).1)

or_failed-err :
    {A : Type 0} (job : Text) (show : Err → Text) (m : M A) (e : Env) (w : World) (x : Err)
    → (m e w).0 ≡ err x
    → Keeps w (m e w).1
    → ((or_failed job show m e w).0 ≡ err x) × Keeps w (or_failed job show m e w).1
unfolding or_failed
or_failed-err job show m e w x h keeps =
    let k = (set_job-Keeps job (lit "failed") (show x) e (m e w).1).1 in
    (ground (arith, h), (ground (arith, h, k.0, keeps.0), ground (arith, h, k.1, keeps.1)))

or_failed-ok :
    {A : Type 0} (job : Text) (show : Err → Text) (m : M A) (e : Env) (w : World) (a : A)
    → (m e w).0 ≡ ok a
    → or_failed job show m e w ≡ (ok a, (m e w).1)
unfolding or_failed
or_failed-ok job show m e w a h = ground (arith, h)

query_claims-Keeps :
    (read_month : Text → Option ℕ) (month status : Text) (e : Env) (w : World)
    → Keeps w (query_claims read_month month status e w).1
unfolding query_claims statement
query_claims-Keeps read_month month status e w = (ground arith, ground arith)

query_claims-ok :
    (read_month : Text → Option ℕ) (month status : Text) (e : Env) (w : World)
    (records : List (Text × List Text))
    → (query_claims read_month month status e w).0 ≡ ok records
    → (rows : List DetailRow) × (export_rows read_month e month status w.db ≡ some rows)
      × (records ≡ map (csv_row e) rows)
unfolding query_claims statement
query_claims-ok read_month month status e w records h =
    elim (Option-cases (export_rows read_month e month status w.db)) [
      | inl refused ↦ absurd (ground arith)
      | inr (rows, chosen) ↦ (rows, chosen, ground arith)
    ]

put_object-cases :
    (key content : Text) (e : Env) (w : World)
    → (((put_object key content e w).0 ≡ err (fault driver))
        × Keeps w (put_object key content e w).1)
      ⊎ (((put_object key content e w).0 ≡ ok tt)
          × ((put_object key content e w).1.db ≡ w.db)
          × ((put_object key content e w).1.objects ≡ set key (some content) w.objects))
unfolding put_object
put_object-cases key content e w = elim (Bool-cases (e.fails w.tick)) [
  | inl failed ↦ inl (ground arith, (ground arith, ground arith))
  | inr put ↦ inr (ground arith, ground arith, ground arith)
]

-- The rest of a run whose rows were read.
abbrev finish : Text → (Err → Text) → Text → List (Text × List Text) → M (Unit {0})
finish job show key records = do
  or_failed job show (put_object key (write_all (header ∷ records)))
  hset (job_key job) (lit "file_key") key
  set_job job (lit "done") []

-- It fails and leaves the bucket alone, or it stores the file.
record Stored (key : Text) (records : List (Text × List Text)) (w w' : World) : Type 0 where
  same_db : w'.db ≡ w.db
  objects : w'.objects ≡ set key (some (write_all (header ∷ records))) w.objects

finish-cases :
    (job : Text) (show : Err → Text) (key : Text) (records : List (Text × List Text)) (e : Env)
    (w : World)
    → let out = finish job show key records e w in
      ((is_ok out.0 ≡ false) × Keeps w out.1) ⊎ ((out.0 ≡ ok tt) × Stored key records w out.1)
finish-cases job show key records e w =
    let put = put_object key (write_all (header ∷ records)) in
    let w1 = (put e w).1 in
    let (ran_key, kept_key) = hset-Keeps (job_key job) (lit "file_key") key e w1 in
    let w2 = (hset (job_key job) (lit "file_key") key e w1).1 in
    let (ran_done, kept_done) = set_job-Keeps job (lit "done") [] e w2 in
    elim (put_object-cases key (write_all (header ∷ records)) e w) [
      | inl (failed, keeps) ↦
          let (answered, kept) = or_failed-err job show put e w (fault driver) failed keeps in
          inl (
            ground (arith, answered),
            (ground (arith, answered, kept.0), ground (arith, answered, kept.1)),
          )
      | inr (done, same, objects) ↦
          let through = or_failed-ok job show put e w tt done in
          inr (
            ground (arith, through, ran_key, ran_done),
            record {
              same_db = ground (arith, through, ran_key, ran_done, kept_key.0, kept_done.0, same);
              objects =
                  ground (arith, through, ran_key, ran_done, kept_key.1, kept_done.1, objects);
            },
          )
    ]

-- A report task never changes a table. It fails and leaves the bucket as it was, or the file
-- that its job's key names holds, under a header, the rows of the claims that the task asks for.
pub handle_report_outcome :
    (read_month : Text → Option ℕ) (month_path : Text) (show : Err → Text) (task : ReportTask)
    (e : Env) (w : World)
    → let out = handle_report read_month month_path show task e w in
      (out.1.db ≡ w.db)
      × (((is_ok out.0 ≡ false) × (out.1.objects ≡ w.objects))
          ⊎ ((out.0 ≡ ok tt)
              × ((rows : List DetailRow) × (export_rows read_month e task.month task.status w.db
                    ≡ some rows)
                  × (out.1.objects
                      ≡ set
                          (report_key month_path task.job_id)
                          (some (write_all (header ∷ map (csv_row e) rows)))
                          w.objects))))
unfolding handle_report
handle_report_outcome read_month month_path show task e w =
    let job = task.job_id in
    let ask = query_claims read_month task.month task.status in
    let key = report_key month_path job in
    let (ran, (db1, objects1)) = set_job-Keeps job (lit "processing") [] e w in
    let w1 = (set_job job (lit "processing") [] e w).1 in
    let (db2, objects2) = query_claims-Keeps read_month task.month task.status e w1 in
    let w2 = (ask e w1).1 in
    elim (Result-cases (ask e w1).0) [
      | inr (x, failed) ↦
          let (answered, (db3, objects3)) =
            or_failed-err job show ask e w1 x failed (db2, objects2) in
          (
            ground (arith, ran, answered, db3, db1),
            inl (ground (arith, ran, answered), ground (arith, ran, answered, objects3, objects1)),
          )
      | inl (records, read) ↦
          let (rows, chosen, same) =
            query_claims-ok read_month task.month task.status e w1 records read in
          let through = or_failed-ok job show ask e w1 records read in
          elim (finish-cases job show key records e w2) [
            | inl (failed, (db3, objects3)) ↦ (
              ground (arith, ran, through, db3, db2, db1),
              inl (
                ground (arith, ran, through, failed),
                ground (arith, ran, through, objects3, objects2, objects1),
              ),
            )
            | inr (done, stored) ↦ (
              ground (arith, ran, through, stored.same_db, db2, db1),
              inr (
                ground (arith, ran, through, done),
                (
                  rows,
                  rw db1 at chosen,
                  ground (arith, ran, through, stored.objects, objects2, objects1, same),
                ),
              ),
            )
          ]
    ]
