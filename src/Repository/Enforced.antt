-- ===== src/Repository/Enforced.antt =====
-- Creation of records by package repository stays within the tenant.
use ais_pkg.Prelude.{
  ℕ, ◌≡◌, refl, false, List, [], ◌∷◌, Option, some, none, Result, ok, err, ◌>>=◌, All,
}
use ais_pkg.Prelude.Text.{Text}
use ais_pkg.Prelude.Int.{ℤ}
use ais_pkg.Errors.Values.{GoError}
use ais_pkg.Repository.Tenant.{TenantContext, Scoped, set_tenant_fields, apply_tenant_scope}
use ais_pkg.Repository.Creation.{InScope, set_tenant_fields-InScope}
use ais_pkg.Repository.Updates.{Schema, upsert_update_columns}
use ais_pkg.Repository.Queries.{Given, Built, Repository, no_query, fresh}
use ais_pkg.Repository.Operations.{Gorm, Verb, insert_rows}
use ais_pkg.Repository.Writes.{
  ModelFields, set_fields, set_all_fields, upsert_parts, create, create_batch, create_valid,
  valid_models, batch_size_of,
}
use ais_pkg.Repository.Enforcement.{OfOk, Allowed, and_then-Safe}
use ais_pkg.Repository.Guarded.{exec}

bind_OfOk :
    {A B : Type 0} (P : A → Type 0) (Q : B → Type 0) (x : Result GoError A)
    (f : A → Result GoError B)
    → OfOk P x
    → ((a : A) → P a → OfOk Q (f a))
    → OfOk Q (x >>= f)
bind_OfOk P Q (ok a) f p h = h a p
bind_OfOk P Q (err e) f p h = tt

by_equation :
    {A : Type 0} (P : A → Type 0) (x : Result GoError A) → ((a : A) → x ≡ ok a → P a) → OfOk P x
by_equation P (ok a) h = h a refl
by_equation P (err e) h = tt

module _ {W : Type 0} {S : Type 0} (g : Gorm W S) (r : Repository W) (fields : ModelFields W)
    (tenant : Option TenantContext) (own : r.info.tenant_ignored ≡ false)
    (lens : (own : Scoped) (m : W) → fields.scope_of (fields.with_scope own m) ≡ own) where
  abbrev Mine : W → Type 0
  Mine m = InScope {Q = Given W} (fields.scope_of m) (apply_tenant_scope r.info tenant no_query)

  set_fields-Mine : (m : W) → OfOk Mine (set_fields g r fields tenant m)
  set_fields-Mine m =
      bind_OfOk (λ own. InScope {Q = Given W} own (apply_tenant_scope r.info tenant no_query)) Mine
        (set_tenant_fields r.info tenant (fields.scope_of m)) _
        (by_equation _ (set_tenant_fields r.info tenant (fields.scope_of m))
          (λ own e. set_tenant_fields-InScope (Given W) r.info tenant (fields.scope_of m) own e))
        (λ own h. rw (lens own m) h)

  set_all_fields-Mine :
      (models : List W) → OfOk (All Mine) (set_all_fields g r fields tenant models)
  unfolding set_all_fields
  set_all_fields-Mine [] = tt
  set_all_fields-Mine (m ∷ models) =
      bind_OfOk Mine (All Mine) (set_fields g r fields tenant m) _ (set_fields-Mine m) (λ own h.
        bind_OfOk (All Mine) (All Mine) (set_all_fields g r fields tenant models) _
          (set_all_fields-Mine models) (λ rest k. (h, k)))

  upsert_parts-Mine :
      (models : List W) → OfOk (λ parts. All Mine parts.0) (upsert_parts g r fields tenant models)
  upsert_parts-Mine models =
      bind_OfOk (All Mine) (λ (parts : List W × List Text). All Mine parts.0)
        (set_all_fields g r fields tenant models) _ (set_all_fields-Mine models)
        (λ rest k. with_schema rest k r.schema)
    where
      with_schema :
          (rest : List W)
          → All Mine rest
          → (x : Result GoError Schema)
          → OfOk
              (λ (parts : List W × List Text). All Mine parts.0)
              (x >>= λ schema. ok (rest, upsert_update_columns schema))
      with_schema rest k (ok schema) = k
      with_schema rest k (err e) = tt

  module _ (I : S → Type 0)
      (kept : (verb : Verb W) (db : Built W) (s : S)
        → Allowed g r (fields.scope_of) tenant own verb db
        → I s
        → I (g verb db s).1) where
    abbrev pub Stays : {A : Type 0} → (S → Result GoError A × S) → Type 0
    Stays f = (s : S) → I s → I (f s).1

    pub create-Stays : (m : Option W) → Stays (create g r fields tenant m)
    unfolding create
    create-Stays none s i = i
    create-Stays (some m) s i =
        and_then-Safe g r (fields.scope_of) tenant own I kept Mine _ _ (set_fields-Mine m)
          (λ own' mine.
            exec g r fields tenant own lens I kept (insert_rows (own' ∷ []) none _) fresh
              (λ _. (refl, (mine, tt))))
          s i

    pub create_valid-Stays :
        (models : List W) (size : ℕ) → Stays (create_valid g r fields tenant models size)
    create_valid-Stays [] size s i = i
    create_valid-Stays (m ∷ models) size s i =
        and_then-Safe g r (fields.scope_of) tenant own I kept (All Mine) _ _
          (set_all_fields-Mine (m ∷ models))
          (λ all mine.
            exec g r fields tenant own lens I kept (insert_rows all (some size) _) fresh
              (λ _. (refl, mine)))
          s i

    pub create_batch-Stays :
        (models : List (Option W)) (size : ℤ) → Stays (create_batch g r fields tenant models size)
    unfolding create_batch
    create_batch-Stays [] size s i = i
    create_batch-Stays (m ∷ models) size s i =
        create_valid-Stays (valid_models (m ∷ models)) (batch_size_of size) s i
