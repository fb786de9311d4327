-- ===== src/Errors/Examples.antt =====
-- Failures and rejections of src/server/errors.ts at fixed inputs.
use agy_proxy.Prelude.{codes, false, ◌≡◌, ◌⊎◌, refl, index_of}
use agy_proxy.Errors.{error_status, anthropic_status_for, is_overloaded}
use agy_proxy.Errors.Tables.{tables_agree}

calm : is_overloaded (codes "slow") ≡ false
unfolding is_overloaded index_of
calm = refl

tables_agree_example :
    ((anthropic_status_for (codes "BUSY") (codes "slow")).status_code
      ≡ (error_status (codes "BUSY")).status_code)
    × ((codes "BUSY" ≡ codes "UNKNOWN_MODEL")
        ⊎ ((anthropic_status_for (codes "BUSY") (codes "slow")).type
            ≡ (error_status (codes "BUSY")).type))
tables_agree_example = tables_agree (codes "BUSY") (codes "slow") calm
