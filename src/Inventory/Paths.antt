-- ===== src/Inventory/Paths.antt =====
-- inventory/db/file_metadata.rs: the LIKE pattern for the descendants of a path, with `str::replace`.
-- SQLite's operator LIKE with the escape character `!` is a parameter, of which its documentation
-- says how it reads `%`, an escaped character and an ordinary one, and the case folding is one too.
use Prim.Native.Char.{Char, code}
use cloudreve_desktop.Prelude.{
  String, Bool, true, false, ◌==◌, if◌then◌else◌, ◌<>◌, ◌≡◌, ◌&&◌, ◌||◌, ==_iff, Bool-cases, refl,
  sym, ap, subst, ◌∙◌, inl, inr,
}
use text.Mathlib.TextEquality.{Char-path}
use Prim.Native.String.append

unfoldable pub replace : Char → String → String → String
replace c new String.[] = String.[]
replace c new (String.◌∷◌ d s) =
    let rest = replace c new s in if code d == code c then new <> rest else String.◌∷◌ d rest

-- `path.replace('!', "!!").replace('%', "!%").replace('_', "!_")`.
unfoldable pub escape_path : String → String
escape_path path = replace "_" "!_" (replace "%" "!%" (replace "!" "!!" path))

-- `%`, `_` and the escape character.
unfoldable pub is_special : Char → Bool
is_special c = code c == 37 || code c == 95 || code c == 33

-- A pattern and a text.
abbrev pub Like : Type 0
Like = String → String → Bool

-- What a pattern matches that begins with a literal character.
unfoldable pub literal : (Char → Char → Bool) → Like → Char → String → String → Bool
literal same like c p String.[] = false
literal same like c p (String.◌∷◌ d s) = same c d && like p s

-- SQLite's documentation of LIKE with `ESCAPE '!'`.
pub record LikeEscape (same : Char → Char → Bool) (like : Like) : Type 0 where
  pub percent : (s : String) → like "%" s ≡ true
  pub ordinary :
      (c : Char) (p s : String)
      → is_special c ≡ false
      → like (String.◌∷◌ c p) s ≡ literal same like c p s
  pub escaped :
      (c : Char) (p s : String)
      → is_special c ≡ true
      → like (String.◌∷◌ "!" (String.◌∷◌ c p)) s ≡ literal same like c p s

-- The text begins with the prefix, up to the case folding.
unfoldable pub has_prefix : (Char → Char → Bool) → String → String → Bool
has_prefix same String.[] s = true
has_prefix same (String.◌∷◌ c p) String.[] = false
has_prefix same (String.◌∷◌ c p) (String.◌∷◌ d s) = same c d && has_prefix same p s

two-append :
    (a b : Char) (s : String)
    → String.◌∷◌ a (String.◌∷◌ b String.[]) <> s ≡ String.◌∷◌ a (String.◌∷◌ b s)
two-append a b s =
    append.cons a (String.◌∷◌ b String.[]) s
    ∙ ap (String.◌∷◌ a) (append.cons b String.[] s ∙ ap (String.◌∷◌ b) (append.nil s))

Escapes : Char → String → Type 0
Escapes c s = escape_path (String.◌∷◌ c s) ≡ (
    if is_special c
    then String.◌∷◌ "!" (String.◌∷◌ c (escape_path s))
    else String.◌∷◌ c (escape_path s))

is_char : (c d : Char) → (code c == code d) ≡ true → d ≡ c
is_char c d e = sym (Char-path c d ((==_iff (code c) (code d)).0 e))

escape_path-cons : (c : Char) (s : String) → Escapes c s
unfolding escape_path replace is_special Escapes
escape_path-cons c s = elim (Bool-cases (code c == 33)) [
  | inl e ↦
      subst (λ d. Escapes d s) (is_char c "!" e)
        (ap (λ r. replace "_" "!_" (replace "%" "!%" r)) (two-append "!" "!" (replace "!" "!!" s)))
  | inr not_escape ↦ elim (Bool-cases (code c == 37)) [
    | inl e ↦
        subst (λ d. Escapes d s) (is_char c "%" e)
          (ap (replace "_" "!_") (two-append "!" "%" (replace "%" "!%" (replace "!" "!!" s))))
    | inr not_percent ↦ elim (Bool-cases (code c == 95)) [
      | inl e ↦
          subst (λ d. Escapes d s) (is_char c "_" e)
            (two-append "!" "_" (replace "_" "!_" (replace "%" "!%" (replace "!" "!!" s))))
      | inr not_underscore ↦ rw not_escape (rw not_percent (rw not_underscore refl))
    ]
  ]
]

if_true {ℓ} : {A : Type ℓ} {b : Bool} (x y : A) → b ≡ true → (if b then x else y) ≡ x
if_true x y e = rw e refl

if_false {ℓ} : {A : Type ℓ} {b : Bool} (x y : A) → b ≡ false → (if b then x else y) ≡ y
if_false x y e = rw e refl

module _ (same : Char → Char → Bool) (like : Like) (spec : LikeEscape same like) where
  pub literal-prefix :
      (c : Char) (p q s : String)
      → ((t : String) → like p t ≡ has_prefix same q t)
      → literal same like c p s ≡ has_prefix same (String.◌∷◌ c q) s
  unfolding literal has_prefix
  literal-prefix c p q String.[] h = refl
  literal-prefix c p q (String.◌∷◌ d s) h = ap (λ b. same c d && b) (h s)

  -- The escaped path followed by a pattern matches what the path followed by a text is a prefix of,
  -- if the pattern matches what the text is a prefix of.
  pub like-escape_path :
      (path p q s : String)
      → ((t : String) → like p t ≡ has_prefix same q t)
      → like (escape_path path <> p) s ≡ has_prefix same (path <> q) s
  unfolding escape_path replace Escapes
  like-escape_path String.[] p q s h = rw (append.nil p, append.nil q) (h s)
  like-escape_path (String.◌∷◌ c path) p q s h =
      let prefix =
        literal-prefix c (escape_path path <> p) (path <> q) s (λ t. like-escape_path path p q t h)
        ∙ sym (ap (λ r. has_prefix same r s) (append.cons c path q)) in
      elim (Bool-cases (is_special c)) [
        | inl e ↦
            ap (λ r. like (r <> p) s) (escape_path-cons c path ∙ if_true _ _ e)
            ∙ ap (λ r. like r s)
                (append.cons "!" (String.◌∷◌ c (escape_path path)) p
                  ∙ ap (String.◌∷◌ "!") (append.cons c (escape_path path) p))
            ∙ spec.escaped c (escape_path path <> p) s e
            ∙ prefix
        | inr e ↦
            ap (λ r. like (r <> p) s) (escape_path-cons c path ∙ if_false _ _ e)
            ∙ ap (λ r. like r s) (append.cons c (escape_path path) p)
            ∙ spec.ordinary c (escape_path path <> p) s e
            ∙ prefix
      ]
