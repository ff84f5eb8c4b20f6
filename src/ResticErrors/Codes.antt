-- ===== src/ResticErrors/Codes.antt =====
-- The codes that carry an error from the root helper to its parent: helperErrCode of
-- internal/app/extract_helper.go and helperSentinelError of internal/app/extract_privileged.go.
use resticscope.Prelude.{
  Text, ◌≡◌, ◌↔◌, refl, Bool, true, false, [], text_eq, codes, arith, if◌then◌else◌,
}

-- The errors that `errors.Is` looks for, as what it finds in a chain of wrapped errors.
pub record Chain : Type 0 where
  pub canceled : Bool
  pub deadline : Bool
  pub staging_exists : Bool
  pub final_exists : Bool
  pub invalid_request : Bool
  pub metadata_normalization : Bool
  pub rename_failed : Bool

-- The codes that the helper writes; one that is not among them is read like the generic one.
pub data HelperCode : Type 0 where
  code_canceled code_deadline code_staging_exists code_final_exists : HelperCode
  code_invalid_request code_metadata_norm code_rename_failed code_generic : HelperCode

unfoldable pub helper_err_code : Chain → HelperCode
helper_err_code c =
    if c.canceled
    then code_canceled
    else if c.deadline
    then code_deadline
    else if c.staging_exists
    then code_staging_exists
    else if c.final_exists
    then code_final_exists
    else if c.invalid_request
    then code_invalid_request
    else if c.metadata_normalization
    then code_metadata_norm
    else if c.rename_failed
    then code_rename_failed
    else code_generic

abbrev pub nothing : Chain
nothing = record {
  canceled = false;
  deadline = false;
  staging_exists = false;
  final_exists = false;
  invalid_request = false;
  metadata_normalization = false;
  rename_failed = false;
}

-- The error that is made of a code, and its text where the message has one: `sentinel` is the
-- sentinel's own text.
unfoldable pub detailed : Text → Text → Text
unfolding text_eq
detailed sentinel msg = if text_eq msg [] then sentinel else msg

unfoldable pub helper_sentinel_error : HelperCode → Chain
helper_sentinel_error code_canceled = record nothing { canceled = true }
helper_sentinel_error code_deadline = record nothing { deadline = true }
helper_sentinel_error code_staging_exists = record nothing { staging_exists = true }
helper_sentinel_error code_final_exists = record nothing { final_exists = true }
helper_sentinel_error code_invalid_request = record nothing { invalid_request = true }
helper_sentinel_error code_metadata_norm = record nothing { metadata_normalization = true }
helper_sentinel_error code_rename_failed = record nothing { rename_failed = true }
helper_sentinel_error code_generic = nothing

unfoldable pub helper_sentinel_text : HelperCode → Text → Text
unfolding detailed
helper_sentinel_text code_canceled msg = codes "extract: context canceled"
helper_sentinel_text code_deadline msg = codes "extract: context deadline exceeded"
helper_sentinel_text code_staging_exists msg = codes "extract: staging directory already exists"
helper_sentinel_text code_final_exists msg = codes "extract: target already exists"
helper_sentinel_text code_invalid_request msg = detailed (codes "extract: invalid request") msg
helper_sentinel_text code_metadata_norm msg =
    detailed (codes "extract: staging metadata normalization failed") msg
helper_sentinel_text code_rename_failed msg = detailed (codes "extract: staging rename failed") msg
helper_sentinel_text code_generic msg = detailed (codes "extract: helper failed") msg

-- A code is kept by the error that is made of it. An error that is sent and made again is a
-- cancellation exactly where it was one; a deadline exactly where it was one and no cancellation;
-- and says that the staging directory exists exactly where it did and was neither of these.
pub helper_err_code-helper_sentinel_error :
    (c : Chain) (code : HelperCode)
    → (helper_err_code (helper_sentinel_error code) ≡ code)
      × (((helper_sentinel_error (helper_err_code c)).canceled ≡ true) ↔ (c.canceled ≡ true))
      × (((helper_sentinel_error (helper_err_code c)).deadline ≡ true)
          ↔ ((c.canceled ≡ false) × (c.deadline ≡ true)))
      × (((helper_sentinel_error (helper_err_code c)).staging_exists ≡ true)
          ↔ ((c.canceled ≡ false) × (c.deadline ≡ false) × (c.staging_exists ≡ true)))
unfolding helper_err_code helper_sentinel_error
helper_err_code-helper_sentinel_error c code = (kept code, ground arith, ground arith, ground arith)
  where
    kept : (code : HelperCode) → helper_err_code (helper_sentinel_error code) ≡ code
    kept code_canceled = refl
    kept code_deadline = refl
    kept code_staging_exists = refl
    kept code_final_exists = refl
    kept code_invalid_request = refl
    kept code_metadata_norm = refl
    kept code_rename_failed = refl
    kept code_generic = refl
