-- ===== src/Api/Keeping/Views.antt =====
-- The listing of claims and the dashboard, beside the tables of claims and approval steps.
use reimbursement_system.Base.{
  ℕ, refl, ap, arith, inl, inr, ◌||◌, Text, Option, none, some, ltb, ℤ, pos, negsuc, Bool-cases,
}
use reimbursement_system.Approval.{Role}
use reimbursement_system.Store.{Db, M, pure, ◌>>◌, ignore_err, statement, query, command, call}
use reimbursement_system.Reimbursements.Service.{service_detail}
use reimbursement_system.Reimbursements.Service.Writing.{service_detail-db}
use reimbursement_system.Reimbursements.Service.Files.{download_url, get_attachment}
use reimbursement_system.Requests.Paging.{Params}
use reimbursement_system.Listings.Claims.{Sql, ListFilters, list_claims, service_list}
use reimbursement_system.Dashboard.{
  Library, Codec, cached, or_load, unmarshalled, cache_put, summary, summary_key, load_summary,
  load_trend, trend_within, monthly_trend, load_breakdown, breakdown_of, category_breakdown,
}
use reimbursement_system.Api.Keeping.{
  Spares, >>=-Spares, ignore_err-Spares, command-Spares, statement-Spares,
}

query-Spares : {A : Type 0} (f : Db → A) → Spares (query f)
query-Spares f = statement-Spares _ (λ t db. (refl, refl))

pub service_detail-Spares :
    (id : ℕ) (role : Role) (user_id : ℕ) → Spares (service_detail id role user_id)
service_detail-Spares id role user_id e w =
    let same = service_detail-db id role user_id e w in
    (ap (λ (db : Db). db.reimbursements) same, ap (λ (db : Db). db.approvals) same)

pub download_url-Spares :
    (id : ℕ) (role : Role) (user_id : ℕ) → Spares (download_url id role user_id)
unfolding download_url get_attachment statement call
download_url-Spares id role user_id e w = (ground arith, ground arith)

list_claims-Spares :
    (sql : Sql) (p : Params) (f : ListFilters) (role : Role) (user_id : ℕ)
    → Spares (list_claims sql p f role user_id)
unfolding list_claims statement
list_claims-Spares sql p f role user_id e w = (ground arith, ground arith)

pub service_list-Spares :
    (sql : Sql) (p : Params) (f : ListFilters) (role : Role) (user_id : ℕ)
    → Spares (service_list sql p f role user_id)
unfolding service_list list_claims statement
service_list-Spares sql p f role user_id e w = (ground arith, ground arith)

or_load-Spares :
    {A : Type 0} (codec : Codec A) (key : Text) (load : M A) (hit : Option Text)
    → Spares load
    → Spares (or_load codec key load hit)
or_load-Spares {A} codec key load (some raw) h = read (codec.unmarshal raw)
  where
    read : (o : Option A) → Spares (unmarshalled o)
    read none = λ e w. (refl, refl)
    read (some a) = λ e w. (refl, refl)
or_load-Spares {A} codec key load none h =
    >>=-Spares load
      (λ out. ignore_err tt (command (λ r. (tt, cache_put key (codec.marshal out) r))) >> pure out)
      h
      (λ out.
        >>=-Spares (ignore_err tt (command (λ r. (tt, cache_put key (codec.marshal out) r))))
          (λ u. pure out) (ignore_err-Spares tt _ (command-Spares _)) (λ u e w. (refl, refl)))

cached-Spares :
    {A : Type 0} (codec : Codec A) (key : Text) (load : M A)
    → Spares load
    → Spares (cached codec key load)
unfolding cached
cached-Spares codec key load h =
    >>=-Spares (ignore_err none (command (λ r. (r.values key, r)))) (or_load codec key load)
      (ignore_err-Spares none _ (command-Spares _)) (λ hit. or_load-Spares codec key load hit h)

load_summary-Spares :
    (lib : Library) (role : Role) (user_id : ℕ) → Spares (load_summary lib role user_id)
unfolding load_summary statement
load_summary-Spares lib role user_id e w = (ground arith, ground arith)

pub summary-Spares : (lib : Library) (role : Role) (user_id : ℕ) → Spares (summary lib role user_id)
unfolding summary
summary-Spares lib role user_id e =
    cached-Spares lib.summary (summary_key e role user_id) (load_summary lib role user_id)
      (load_summary-Spares lib role user_id) e

load_trend-Spares :
    (lib : Library) (role : Role) (user_id months : ℕ) → Spares (load_trend lib role user_id months)
unfolding load_trend statement
load_trend-Spares lib role user_id months e w = (ground arith, ground arith)

trend_within-Spares :
    (lib : Library) (show : ℕ → Text) (role : Role) (user_id months : ℕ)
    → Spares (trend_within lib show role user_id months)
trend_within-Spares lib show role user_id months e =
    cached-Spares lib.trend _ (load_trend lib role user_id months)
      (load_trend-Spares lib role user_id months) e

pub monthly_trend-Spares :
    (lib : Library) (show : ℕ → Text) (role : Role) (user_id : ℕ) (months : ℤ)
    → Spares (monthly_trend lib show role user_id months)
unfolding monthly_trend
monthly_trend-Spares lib show role user_id (negsuc n) = λ e w. (refl, refl)
monthly_trend-Spares lib show role user_id (pos n) = elim (Bool-cases (ltb n 1 || ltb 24 n)) [
  | inl over ↦ rw over (λ e w. (refl, refl))
  | inr within ↦ rw within (trend_within-Spares lib show role user_id n)
]

load_breakdown-Spares :
    (lib : Library) (role : Role) (user_id : ℕ) (name : Text) (month : ℕ)
    → Spares (load_breakdown lib role user_id name month)
unfolding load_breakdown statement
load_breakdown-Spares lib role user_id name month e w = (ground arith, ground arith)

breakdown_of-Spares :
    (lib : Library) (role : Role) (user_id : ℕ) (name : Text) (month : Option ℕ)
    → Spares (breakdown_of lib role user_id name month)
breakdown_of-Spares lib role user_id name none = λ e w. (refl, refl)
breakdown_of-Spares lib role user_id name (some month) = λ e.
    cached-Spares lib.breakdown _ (load_breakdown lib role user_id name month)
      (load_breakdown-Spares lib role user_id name month) e

pub category_breakdown-Spares :
    (lib : Library) (role : Role) (user_id : ℕ) (month : Text)
    → Spares (category_breakdown lib role user_id month)
unfolding category_breakdown
category_breakdown-Spares lib role user_id month e = breakdown_of-Spares lib role user_id _ _ e
