-- ===== src/Drive/Shortcuts/Resolved.antt =====
-- What a resolved URI is: one without a redirect on its way.
use cloudreve_desktop.Prelude.{
  ℕ, zero, suc, String, ◌≡◌, refl, sym, ap, ◌∙◌, Bool, inr, Option, none, some, List, [], ◌∷◌,
  arith, any, ◌<◌, false, str_eq,
}
use cloudreve_desktop.Drive.Shortcuts.Redirects.{
  IsDirect, IsRedirected, inspect-IsDirect, IsDirect-inspect, IsRedirected-inspect,
}
use cloudreve_desktop.Drive.Shortcuts.{
  CrUri, Uris, Scan, inspect, Resolution, on_scan, rounds, start, max_redirects,
  resolve_with_lookup,
}

-- The text is that of a URI no part of which is a redirect, the last one only where it is followed.
pub record IsResolved (uris : Uris) (follow_leaf : Bool) (text : String) : Type 0 where
  pub uri : CrUri
  pub printed : text ≡ uris.to_string uri
  pub no_redirect : IsDirect uris follow_leaf uri

module _ (uris : Uris) (follow_leaf : Bool) where
  on_scan-IsResolved :
      (current : CrUri) (again : CrUri → Resolution) (s : Scan) (text : String)
      → ((target : CrUri) → again target ≡ inr text → IsResolved uris follow_leaf text)
      → inspect uris follow_leaf current ≡ s
      → on_scan uris current again s ≡ inr text
      → IsResolved uris follow_leaf text
  unfolding on_scan
  on_scan-IsResolved current again (Scan.broken error) text later q h = absurd cc
  on_scan-IsResolved current again Scan.none_redirected text later q h = record {
    uri = current;
    printed = cc;
    no_redirect = inspect-IsDirect uris follow_leaf current q;
  }
  on_scan-IsResolved current again (Scan.redirected target) text later q h = later target h

  rounds-IsResolved :
      (left : ℕ) (visited : List String) (current : CrUri) (text : String)
      → rounds uris follow_leaf left visited current ≡ inr text
      → IsResolved uris follow_leaf text
  unfolding rounds
  rounds-IsResolved zero visited current text e = absurd cc
  rounds-IsResolved (suc left) visited current text e =
      on_scan-IsResolved current (rounds uris follow_leaf left (uris.to_string current ∷ visited)) _
        text (λ target. rounds-IsResolved left (uris.to_string current ∷ visited) target text) refl
        (ground (arith, e))

  start-IsResolved :
      (read : Option CrUri) (text : String)
      → start uris follow_leaf read ≡ inr text
      → IsResolved uris follow_leaf text
  unfolding start
  start-IsResolved none text e = absurd cc
  start-IsResolved (some current) text e = rounds-IsResolved max_redirects [] current text e

  -- What a URI is resolved to has no redirect on its way: the server gives no target for any URI of
  -- its first elements, that of all its elements only where the last one is followed.
  pub resolve_with_lookup-IsResolved :
      (uri text : String)
      → resolve_with_lookup uris uri follow_leaf ≡ inr text
      → IsResolved uris follow_leaf text
  unfolding resolve_with_lookup
  resolve_with_lookup-IsResolved uri text e = start-IsResolved (uris.new uri) text e

-- A chain of `k` redirects that visits no URI twice leads from a URI to a printed one.
pub data Leads (uris : Uris) (follow_leaf : Bool) : ℕ → List String → CrUri → String → Type 0 where
  arrived :
      {visited : List String} {current : CrUri} {text : String}
      → any (str_eq (uris.to_string current)) visited ≡ false
      → IsDirect uris follow_leaf current
      → text ≡ uris.to_string current
      → Leads uris follow_leaf 0 visited current text
  redirect :
      {k : ℕ} {visited : List String} {current : CrUri} {text : String} (target : CrUri)
      → any (str_eq (uris.to_string current)) visited ≡ false
      → IsRedirected uris follow_leaf current target
      → Leads uris follow_leaf k (uris.to_string current ∷ visited) target text
      → Leads uris follow_leaf (suc k) visited current text

rounds-Leads :
    (uris : Uris) (follow_leaf : Bool) {k : ℕ} {visited : List String} {current : CrUri}
    {text : String} (left : ℕ)
    → Leads uris follow_leaf k visited current text
    → k < left
    → rounds uris follow_leaf left visited current ≡ inr text
unfolding rounds on_scan
rounds-Leads uris follow_leaf zero chain h = absurd (omega arith)
rounds-Leads uris follow_leaf (suc left) (arrived fresh direct printed) h =
    rw fresh (rw (IsDirect-inspect uris follow_leaf _ direct) (ap inr (sym printed)))
rounds-Leads uris follow_leaf (suc left) (redirect target fresh redirected chain) h = rw fresh (
    rw (IsRedirected-inspect uris follow_leaf _ target redirected)
      (rounds-Leads uris follow_leaf left chain (omega arith)))

-- A URI from which fewer than 32 redirects, none of them circular, lead to one without a redirect is
-- resolved to that one; a redirect is one of the shortest part of the URI that has a target, where the
-- target can be read and is not a search.
pub resolve_with_lookup-Leads :
    (uris : Uris) (follow_leaf : Bool) (uri : String) (current : CrUri) (k : ℕ) (text : String)
    → uris.new uri ≡ some current
    → Leads uris follow_leaf k [] current text
    → k < 32
    → resolve_with_lookup uris uri follow_leaf ≡ inr text
unfolding resolve_with_lookup start
resolve_with_lookup-Leads uris follow_leaf uri current k text read chain h =
    ap (start uris follow_leaf) read ∙ rounds-Leads uris follow_leaf 32 chain h
