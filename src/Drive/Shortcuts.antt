-- ===== src/Drive/Shortcuts.antt =====
-- drive/share_shortcuts.rs: visible URIs are resolved through shortcuts to received shares, and content
-- URIs are moved with a renamed subtree. A CrUri (crates/cloudreve-api/src/models/uri.rs) is its
-- authority, the decoded elements of its path and its query; how the url crate reads and prints it is
-- the parameter Uris.
pub mod Redirects
pub mod Resolved
pub mod Rebase
use cloudreve_desktop.Prelude.{
  if◌then◌else◌, any, length, ℕ, zero, suc, ◌-◌, String, Bool, true, false, ◌⊎◌, inl, inr, Option,
  none, some, List, [], ◌∷◌, ◌++◌, str_eq,
}

pub record CrUri : Type 0 where
  pub authority : String
  pub elements : List String
  pub query : Option String

-- `CrUri::new`, `to_string`, whether the query has a pair (`query_pairs().next().is_some()`), and the
-- server's answer to `get_file_info` for a URI: an error, or the target of the redirect that the file
-- is, if any.
pub record Uris : Type 0 where
  pub new : String → Option CrUri
  pub to_string : CrUri → String
  pub has_pairs : Option String → Bool
  pub lookup : String → String ⊎ Option String

unfoldable pub is_search : Uris → CrUri → Bool
is_search uris uri = uris.has_pairs uri.query

-- `join(&[child])` for each of the children.
unfoldable pub join_all : CrUri → List String → CrUri
join_all uri children = record uri { elements = uri.elements ++ children }

abbrev pub max_redirects : ℕ
max_redirects = 32

-- What the loop over the prefixes of a URI finds: an error, no redirect, or the URI to go on with.
pub data Scan : Type 0 where
  broken : String → Scan
  none_redirected : Scan
  redirected : CrUri → Scan

unfoldable pub follow : Uris → List String → Option CrUri → Scan
unfolding is_search join_all
follow uris children none = Scan.broken "invalid received-share target"
follow uris children (some target) =
    if is_search uris target
    then Scan.broken "received-share target cannot be a search URI"
    else Scan.redirected (join_all target children)

-- What an answer leads to, with the scan of the longer prefixes.
unfoldable pub on_answer : Uris → List String → Scan → String ⊎ Option String → Scan
unfolding follow
on_answer uris children rest (inl error) = Scan.broken error
on_answer uris children rest (inr none) = rest
on_answer uris children rest (inr (some target)) = follow uris children (uris.new target)

-- The loop: `prefix` holds the elements before the ones that are left, `count` of which are inspected.
unfoldable pub scan : Uris → CrUri → ℕ → List String → List String → Scan
unfolding on_answer
scan uris current zero prefix left = Scan.none_redirected
scan uris current (suc count) prefix [] = Scan.none_redirected
scan uris current (suc count) prefix (element ∷ left) =
    let prefix' = prefix ++ element ∷ [] in
    let rest = scan uris current count prefix' left in
    on_answer uris left rest (uris.lookup (uris.to_string (record current { elements = prefix' })))

unfoldable pub inspect_count : Bool → List String → ℕ
inspect_count true elements = length elements
inspect_count false elements = length elements - 1

unfoldable pub inspect : Uris → Bool → CrUri → Scan
unfolding scan inspect_count
inspect uris follow_leaf current =
    scan uris current (inspect_count follow_leaf current.elements) [] current.elements

abbrev pub Resolution : Type 0
Resolution = String ⊎ String

-- What a round does with its scan, with the rounds that are left.
unfoldable pub on_scan : Uris → CrUri → (CrUri → Resolution) → Scan → Resolution
on_scan uris current again (Scan.broken error) = inl error
on_scan uris current again Scan.none_redirected = inr (uris.to_string current)
on_scan uris current again (Scan.redirected target) = again target

-- The rounds that are left, over the URIs that were visited.
unfoldable pub rounds : Uris → Bool → ℕ → List String → CrUri → Resolution
unfolding inspect on_scan
rounds uris follow_leaf zero visited current = inl "too many received-share shortcut redirects"
rounds uris follow_leaf (suc left) visited current =
    if any (str_eq (uris.to_string current)) visited
    then inl "circular received-share shortcut"
    else on_scan uris current (rounds uris follow_leaf left (uris.to_string current ∷ visited))
        (inspect uris follow_leaf current)

unfoldable pub start : Uris → Bool → Option CrUri → Resolution
unfolding rounds
start uris follow_leaf none = inl "Invalid cloudreve URI"
start uris follow_leaf (some current) = rounds uris follow_leaf max_redirects [] current

unfoldable pub resolve_with_lookup : Uris → String → Bool → Resolution
unfolding start
resolve_with_lookup uris uri follow_leaf = start uris follow_leaf (uris.new uri)
