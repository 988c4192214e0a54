-- ===== src/Drive/Changes/Detection.antt =====
-- When the remote version counts as unchanged.
use cloudreve_desktop.Prelude.{
  ◌≡◌, ◌↔◌, Bool, true, false, some, Bool-cases, if-rule, if_not-rule, refl, sym, ◌∙◌, ◌≢◌, inl,
  inr, Option, none, arith, eq_iff, str_eq,
}
use cloudreve_desktop.Prelude.Int.{ℤ, eqb_ℤ, eqb_ℤ_iff}
use cloudreve_desktop.Drive.Files.{FileMetadata, FileResponse}
use cloudreve_desktop.Drive.Fingerprint.{Host}
use cloudreve_desktop.Drive.Changes.{
  RemoteChange, remote_change, compare_to_base, by_time, without_etag, unwrap_or, bool_eq,
}

-- The remote entry agrees with the base: in its sharing, in its ETag, and, where there is no ETag,
-- in its time, as far as that can be parsed.
pub record Agrees (host : Host) (remote : FileResponse) (entry : FileMetadata) : Type 0 where
  pub sharing : unwrap_or remote.shared false ≡ entry.shared
  pub etag : unwrap_or remote.primary_entity "" ≡ entry.etag
  pub time :
      entry.etag ≡ ""
      → (ts : ℤ) → host.parse_rfc3339_timestamp remote.updated_at ≡ some ts
      → ts ≡ entry.updated_at

bool_eq_iff : (a b : Bool) → (bool_eq a b ≡ true) ↔ (a ≡ b)
bool_eq_iff a b = ground arith

by_time-changed : (time : Option ℤ) (base : ℤ) → by_time time base ≢ RemoteChange.unchanged
unfolding by_time
by_time-changed none base h = cc
by_time-changed (some ts) base h = ground arith

-- Without an ETag, a time that can be parsed has to be the base's.
without_etag_iff :
    (time : Option ℤ) (base : ℤ)
    → (without_etag time base ≡ RemoteChange.unchanged) ↔ ((ts : ℤ) → time ≡ some ts → ts ≡ base)
unfolding without_etag
without_etag_iff none base = (λ h ts e. absurd cc, λ h. refl)
without_etag_iff (some time) base = elim (Bool-cases (eqb_ℤ time base)) [
  | inl same ↦ rw same (λ h ts e. cc (e, (eqb_ℤ_iff time base).0 same), λ h. refl)
  | inr other ↦ rw other (
    λ h. absurd (by_time-changed (some time) base h),
    λ h. absurd (ground (arith, other, eqb_ℤ_iff time base, h time refl)),
  )
]

module _ (host : Host) (remote : FileResponse) (entry : FileMetadata) where
  only_if_lem :
      remote_change host remote (some entry) ≡ RemoteChange.unchanged → Agrees host remote entry
  unfolding remote_change compare_to_base
  only_if_lem =
      if_not-rule P (bool_eq (unwrap_or remote.shared false) entry.shared) (λ other h. absurd cc)
        (λ shared.
          if_not-rule P (str_eq (unwrap_or remote.primary_entity "") entry.etag)
            (λ other h. absurd (by_time-changed _ entry.updated_at h))
            (λ known.
              if-rule P (str_eq (unwrap_or remote.primary_entity "") "")
                (λ empty h. record {
                  sharing = (bool_eq_iff _ _).0 shared;
                  etag = (eq_iff _ _).0 known;
                  time = λ e. (without_etag_iff _ entry.updated_at).0 h;
                })
                (λ full h. record {
                  sharing = (bool_eq_iff _ _).0 shared;
                  etag = (eq_iff _ _).0 known;
                  time = λ e ts f. absurd (not_empty full ((eq_iff _ _).0 known ∙ e));
                })))
    where
      P : RemoteChange → Type 0
      P r = r ≡ RemoteChange.unchanged → Agrees host remote entry

      not_empty :
          str_eq (unwrap_or remote.primary_entity "") "" ≡ false
          → unwrap_or remote.primary_entity "" ≢ ""
      not_empty h e = cc (h, (eq_iff (unwrap_or remote.primary_entity "") "").1 e)

  if_lem :
      Agrees host remote entry → remote_change host remote (some entry) ≡ RemoteChange.unchanged
  unfolding remote_change compare_to_base
  if_lem a =
      if_not-rule P (bool_eq (unwrap_or remote.shared false) entry.shared)
        (λ other. absurd (
          ground
            (arith, other, bool_eq_iff (unwrap_or remote.shared false) entry.shared, a.sharing)))
        (λ same.
          if_not-rule P (str_eq (unwrap_or remote.primary_entity "") entry.etag)
            (λ other. absurd (
              ground
                (arith, other, eq_iff (unwrap_or remote.primary_entity "") entry.etag, a.etag)))
            (λ known.
              if-rule P (str_eq (unwrap_or remote.primary_entity "") "")
                (λ empty.
                  (without_etag_iff _ entry.updated_at).1 (
                    a.time (sym a.etag ∙ (eq_iff (unwrap_or remote.primary_entity "") "").0 empty)))
                (λ full. refl)))
    where
      P : RemoteChange → Type 0
      P r = r ≡ RemoteChange.unchanged

-- The remote version counts as unchanged exactly when it agrees with the inventory's row.
pub remote_change-unchanged :
    (host : Host) (remote : FileResponse) (entry : FileMetadata)
    → (remote_change host remote (some entry) ≡ RemoteChange.unchanged) ↔ Agrees host remote entry
remote_change-unchanged host remote entry =
    (only_if_lem host remote entry, if_lem host remote entry)
