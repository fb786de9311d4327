-- ===== src/Errors/Tables.antt =====
-- The two tables of src/server/errors.ts side by side, and the choice of a body by the path.
use agy_proxy.Prelude.{
  ℕ, false, [], ◌∷◌, ◌++◌, Option, Text, codes, eq_text, ◌≡◌, refl, inl, inr, Bool-cases, arith,
  ◌⊎◌, eq_text→eq,
}
use agy_proxy.Errors.{
  status, error_status, is_overloaded, anthropic_status_for, before_query, is_anthropic_path,
  auth_error_for, quota_reject_for,
}

-- For a message that does not mention an overload, a failure has the same status for both protocols,
-- and the same type unless it is that of an unknown model.
pub tables_agree :
    (code message : Text)
    → is_overloaded message ≡ false
    → ((anthropic_status_for code message).status_code ≡ (error_status code).status_code)
      × ((code ≡ codes "UNKNOWN_MODEL")
          ⊎ ((anthropic_status_for code message).type ≡ (error_status code).type))
unfolding anthropic_status_for error_status status
tables_agree code message h = elim (Bool-cases (eq_text code (codes "UNKNOWN_MODEL"))) [
  | inl e ↦ (ground (arith, h), inl (eq_text→eq code (codes "UNKNOWN_MODEL") e))
  | inr e ↦ (ground (arith, h), inr (ground (arith, h, e)))
]

before_query-append :
    (path query : Text) → before_query path ≡ path → before_query (path ++ (63 ∷ query)) ≡ path
unfolding before_query
before_query-append [] query h = refl
before_query-append (c ∷ path) query h = ground (arith, h, before_query-append path query)

-- The query of a URL never decides the protocol of a rejection: with a path that has no question
-- mark, the answers are those for the path alone.
pub query_is_ignored :
    (path query message : Text) (retry_after_ms : ℕ) (request_id : Option Text)
    → before_query path ≡ path
    → (auth_error_for (path ++ (63 ∷ query)) message request_id
        ≡ auth_error_for path message request_id)
      × (quota_reject_for (path ++ (63 ∷ query)) message retry_after_ms request_id
          ≡ quota_reject_for path message retry_after_ms request_id)
unfolding auth_error_for quota_reject_for is_anthropic_path
query_is_ignored path query message retry_after_ms request_id h =
    rw (before_query-append path query h, h) (refl, refl)
