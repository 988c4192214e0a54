-- ===== src/Drive/Shortcuts/Rebase.antt =====
-- `rebase_content_uri` of drive/share_shortcuts.rs.
use Prim.Native.Char.{code}
use text.Mathlib.TextEquality.{Char-path}
use cloudreve_desktop.Prelude.{
  if◌then◌else◌, String, ◌<>◌, ◌≡◌, refl, sym, ap, ◌∙◌, Bool, false, Bool-cases, inl, inr, ◌==◌,
  ==_iff, Option, none, some, str_eq, ◌↔◌, ◌⊎◌, true, some_inj, eq_iff,
}
use Prim.Native.String.append

-- `str::strip_prefix`
unfoldable pub strip_prefix : String → String → Option String
strip_prefix String.[] s = some s
strip_prefix (String.◌∷◌ c p) String.[] = none
strip_prefix (String.◌∷◌ c p) (String.◌∷◌ d s) =
    let rest = strip_prefix p s in if code c == code d then rest else none

-- `suffix.starts_with('/')`
unfoldable pub starts_with_slash : String → Bool
starts_with_slash String.[] = false
starts_with_slash (String.◌∷◌ c s) = code c == 47

unfoldable pub move_suffix : String → Option String → Option String
unfolding starts_with_slash
move_suffix new_root none = none
move_suffix new_root (some suffix) =
    if starts_with_slash suffix then some (new_root <> suffix) else none

unfoldable pub rebase_content_uri : String → String → String → Option String
unfolding strip_prefix move_suffix
rebase_content_uri uri old_root new_root =
    if str_eq uri old_root then some new_root else move_suffix new_root (strip_prefix old_root uri)

strip_prefix-append : (p s : String) → strip_prefix p (p <> s) ≡ some s
unfolding strip_prefix
strip_prefix-append String.[] s = ap some (append.nil s)
strip_prefix-append (String.◌∷◌ c p) s =
    ap (strip_prefix (String.◌∷◌ c p)) (append.cons c p s)
    ∙ rw ((==_iff (code c) (code c)).1 refl) (strip_prefix-append p s)

strip_prefix-eq : (p s r : String) → strip_prefix p s ≡ some r → s ≡ p <> r
unfolding strip_prefix
strip_prefix-eq String.[] s r e = some_inj.0 e ∙ sym (append.nil r)
strip_prefix-eq (String.◌∷◌ c p) String.[] r e = absurd cc
strip_prefix-eq (String.◌∷◌ c p) (String.◌∷◌ d s) r e = elim (Bool-cases (code c == code d)) [
  | inl same ↦
      ap (λ x. String.◌∷◌ x s) (sym (Char-path c d ((==_iff (code c) (code d)).0 same)))
      ∙ (ap (String.◌∷◌ c) (strip_prefix-eq p s r (rw same at e)) ∙ sym (append.cons c p r))
  | inr other ↦ absurd (none_some (rw other at e))
]
  where
    none_some : ◌≡◌ {A = Option String} none (some r) → ⊥
    none_some h = cc

strip_prefix_self : (p : String) → strip_prefix p p ≡ some String.[]
unfolding strip_prefix
strip_prefix_self String.[] = refl
strip_prefix_self (String.◌∷◌ c p) = rw ((==_iff (code c) (code c)).1 refl) (strip_prefix_self p)

-- A text that goes on with a slash is another.
longer : (p s : String) → starts_with_slash s ≡ true → str_eq (p <> s) p ≡ false
unfolding starts_with_slash
longer p s slash = elim (Bool-cases (str_eq (p <> s) p)) [
  | inr other ↦ other
  | inl same ↦ absurd (
      no_slash (
        some_inj.0 (
          sym (strip_prefix-append p s)
          ∙ (ap (strip_prefix p) ((eq_iff (p <> s) p).0 same) ∙ strip_prefix_self p))))
]
  where
    no_slash : s ≡ String.[] → ⊥
    no_slash empty = false_true (ap starts_with_slash (sym empty) ∙ slash)
      where
        false_true : false ≡ true → ⊥
        false_true e = cc

-- The content URIs at or below a root, with what they become.
abbrev pub Moves : String → String → String → String → Type 0
Moves uri old_root new_root moved =
    ((uri ≡ old_root) × (moved ≡ new_root))
    ⊎ ((suffix : String) × (starts_with_slash suffix ≡ true)
        × (uri ≡ old_root <> suffix)
        × (moved ≡ new_root <> suffix))

Moves-rebase :
    (uri old_root new_root moved : String)
    → Moves uri old_root new_root moved
    → rebase_content_uri uri old_root new_root ≡ some moved
unfolding rebase_content_uri move_suffix
Moves-rebase uri old_root new_root moved (inl (at_root, e)) =
    rw ((eq_iff uri old_root).1 at_root) (ap some (sym e))
Moves-rebase uri old_root new_root moved (inr (suffix, slash, here, e)) =
    ap (λ u. rebase_content_uri u old_root new_root) here
    ∙ rw (longer old_root suffix slash) (
        ap (move_suffix new_root) (strip_prefix-append old_root suffix)
        ∙ rw slash (ap some (sym e)))

suffix-Moves :
    (uri old_root new_root moved : String) (stripped : Option String)
    → strip_prefix old_root uri ≡ stripped
    → move_suffix new_root stripped ≡ some moved
    → Moves uri old_root new_root moved
unfolding move_suffix
suffix-Moves uri old_root new_root moved none s e = absurd cc
suffix-Moves uri old_root new_root moved (some suffix) s e =
    elim (Bool-cases (starts_with_slash suffix)) [
      | inl slash ↦
          inr
            (suffix, slash, strip_prefix-eq old_root uri suffix s, sym (some_inj.0 (rw slash at e)))
      | inr other ↦ absurd (none_some (rw other at e))
    ]
  where
    none_some : ◌≡◌ {A = Option String} none (some moved) → ⊥
    none_some h = cc

rebase-Moves :
    (uri old_root new_root moved : String)
    → rebase_content_uri uri old_root new_root ≡ some moved
    → Moves uri old_root new_root moved
unfolding rebase_content_uri
rebase-Moves uri old_root new_root moved e = elim (Bool-cases (str_eq uri old_root)) [
  | inl same ↦ inl ((eq_iff uri old_root).0 same, sym (some_inj.0 (rw same at e)))
  | inr other ↦
      suffix-Moves uri old_root new_root moved (strip_prefix old_root uri) refl (rw other at e)
]

-- A content URI is moved exactly if it is the old root or goes on from it with a slash; it becomes the
-- new root with what follows.
pub rebase_content_uri-Moves :
    (uri old_root new_root moved : String)
    → (rebase_content_uri uri old_root new_root ≡ some moved) ↔ Moves uri old_root new_root moved
rebase_content_uri-Moves uri old_root new_root moved =
    (rebase-Moves uri old_root new_root moved, Moves-rebase uri old_root new_root moved)

-- Moving a content URI and moving it back gives the URI.
pub rebase_content_uri-inverse :
    (uri old_root new_root moved : String)
    → rebase_content_uri uri old_root new_root ≡ some moved
    → rebase_content_uri moved new_root old_root ≡ some uri
rebase_content_uri-inverse uri old_root new_root moved e =
    Moves-rebase moved new_root old_root uri (back (rebase-Moves uri old_root new_root moved e))
  where
    back : Moves uri old_root new_root moved → Moves moved new_root old_root uri
    back (inl (at_root, e)) = inl (e, at_root)
    back (inr (suffix, slash, here, e)) = inr (suffix, slash, e, here)
