-- ===== src/Drive/Shortcuts/Redirects.antt =====
-- What the loop of `resolve_with_lookup` (drive/share_shortcuts.rs) over the prefixes of a URI finds, told
-- from the elements of the URI.
use cloudreve_desktop.Prelude.{
  ◌-◌, ◌+◌, ℕ, zero, suc, ◌<◌, String, ◌≡◌, refl, sym, ap, subst, ◌∙◌, Bool, true, false, ◌⊎◌, inl,
  inr, Option, none, some, List, [], ◌∷◌, ◌++◌, append-nil, append_assoc, length, length-append,
  arith,
}
use cloudreve_desktop.Drive.Shortcuts.{
  CrUri, Uris, Scan, is_search, join_all, follow, on_answer, scan, inspect_count, inspect,
}

-- Whether an element with these after it is looked up: the last one only where it is followed.
abbrev pub is_inspected : Bool → List String → Bool
is_inspected true rest = true
is_inspected false [] = false
is_inspected false (child ∷ rest) = true

module _ (uris : Uris) where
  -- The server's answer for the URI of the first elements.
  abbrev pub answer : CrUri → List String → String ⊎ Option String
  answer uri prefix = uris.lookup (uris.to_string (record uri { elements = prefix }))

  -- No part of the URI that is looked up is a redirect.
  abbrev pub IsDirect : Bool → CrUri → Type 0
  IsDirect follow_leaf uri =
      (prefix : List String) (element : String) (rest : List String)
      → uri.elements ≡ prefix ++ element ∷ rest
      → is_inspected follow_leaf rest ≡ true
      → answer uri (prefix ++ element ∷ []) ≡ inr none

  -- The shortest part of the URI that is a redirect leads to the target, to which the elements after
  -- that part are added.
  pub record IsRedirected (follow_leaf : Bool) (uri target : CrUri) : Type 0 where
    pub prefix : List String
    pub element : String
    pub rest : List String
    pub goal : String
    pub shared : CrUri
    pub split : uri.elements ≡ prefix ++ element ∷ rest
    pub inspected : is_inspected follow_leaf rest ≡ true
    pub shortest :
        (shorter : List String) (e : String) (left : List String)
        → prefix ≡ shorter ++ e ∷ left
        → answer uri (shorter ++ e ∷ []) ≡ inr none
    pub leads : answer uri (prefix ++ element ∷ []) ≡ inr (some goal)
    pub reads : uris.new goal ≡ some shared
    pub no_search : is_search uris shared ≡ false
    pub joined : target ≡ join_all shared rest

  follow-redirects :
      (children : List String) (read : Option CrUri)
      → follow uris children read ≡ Scan.none_redirected
      → ⊥
  unfolding follow
  follow-redirects children none e = absurd cc
  follow-redirects children (some target) e = ground (arith, e)

  on_answer-none :
      (children : List String) (rest : Scan) (a : String ⊎ Option String)
      → on_answer uris children rest a ≡ Scan.none_redirected
      → (a ≡ inr none) × (rest ≡ Scan.none_redirected)
  unfolding on_answer
  on_answer-none children rest (inl error) e = absurd cc
  on_answer-none children rest (inr none) e = (refl, e)
  on_answer-none children rest (inr (some target)) e =
      absurd (follow-redirects children (uris.new target) e)

  -- The elements before `mid` were seen already.
  scan-none :
      (uri : CrUri) (count : ℕ) (seen mid : List String) (element : String) (rest : List String)
      → scan uris uri count seen (mid ++ element ∷ rest) ≡ Scan.none_redirected
      → length mid < count
      → answer uri ((seen ++ mid) ++ element ∷ []) ≡ inr none
  unfolding scan
  scan-none uri zero seen mid element rest e h = absurd (omega arith)
  scan-none uri (suc count) seen [] element rest e h =
      ap (λ s. answer uri (s ++ element ∷ [])) (append-nil seen) ∙ (on_answer-none rest _ _ e).0
  scan-none uri (suc count) seen (m ∷ mid) element rest e h =
      ap (λ s. answer uri (s ++ element ∷ [])) (sym (append_assoc seen (m ∷ []) mid))
      ∙ scan-none uri count (seen ++ m ∷ []) mid element rest
          (on_answer-none (mid ++ element ∷ rest) _ _ e).1 (omega arith)

  inspected-count :
      (follow_leaf : Bool) (prefix : List String) (element : String) (rest : List String)
      → is_inspected follow_leaf rest ≡ true
      → length prefix < inspect_count follow_leaf (prefix ++ element ∷ rest)
  unfolding inspect_count
  inspected-count true prefix element rest h = omega (arith, length-append prefix (element ∷ rest))
  inspected-count false prefix element [] h = absurd cc
  inspected-count false prefix element (child ∷ rest) h =
      omega (arith, length-append prefix (element ∷ child ∷ rest))

  pub inspect-IsDirect :
      (follow_leaf : Bool) (uri : CrUri)
      → inspect uris follow_leaf uri ≡ Scan.none_redirected
      → IsDirect follow_leaf uri
  unfolding inspect
  inspect-IsDirect follow_leaf uri e prefix element rest split h =
      scan-none uri (inspect_count follow_leaf (prefix ++ element ∷ rest)) [] prefix element rest
        (subst (λ es. scan uris uri (inspect_count follow_leaf es) [] es ≡ Scan.none_redirected)
          split e)
        (inspected-count follow_leaf prefix element rest h)

  -- The elements that answer nothing are passed over.
  scan-skip :
      (uri : CrUri) (total count : ℕ) (seen mid left : List String)
      → total ≡ length mid + count
      → ((shorter : List String) (e : String) (after : List String)
          → mid ≡ shorter ++ e ∷ after
          → answer uri ((seen ++ shorter) ++ e ∷ []) ≡ inr none)
      → scan uris uri total seen (mid ++ left) ≡ scan uris uri count (seen ++ mid) left
  unfolding scan on_answer
  scan-skip uri total count seen [] left n h =
      ap (λ c. scan uris uri c seen left) (same n)
      ∙ ap (λ s. scan uris uri count s left) (sym (append-nil seen))
    where
      same : total ≡ length {A = String} [] + count → total ≡ count
      same e = omega arith
  scan-skip uri zero count seen (m ∷ mid) left n h = absurd (omega arith)
  scan-skip uri (suc total) count seen (m ∷ mid) left n h =
      ap (on_answer uris (mid ++ left) (scan uris uri total (seen ++ m ∷ []) (mid ++ left)))
        (ap (λ s. answer uri (s ++ m ∷ [])) (sym (append-nil seen)) ∙ h [] m mid refl)
      ∙ (scan-skip uri total count (seen ++ m ∷ []) mid left (omega arith) (λ shorter e after split.
            ap (λ s. answer uri (s ++ e ∷ [])) (append_assoc seen (m ∷ []) shorter)
            ∙ h (m ∷ shorter) e after (ap (◌∷◌ m) split))
          ∙ ap (λ s. scan uris uri count s left) (append_assoc seen (m ∷ []) mid))

  scan-all :
      (uri : CrUri) (count : ℕ) (seen left : List String)
      → ((shorter : List String) (e : String) (after : List String)
          → left ≡ shorter ++ e ∷ after
          → length shorter < count
          → answer uri ((seen ++ shorter) ++ e ∷ []) ≡ inr none)
      → scan uris uri count seen left ≡ Scan.none_redirected
  unfolding scan on_answer
  scan-all uri zero seen left h = refl
  scan-all uri (suc count) seen [] h = refl
  scan-all uri (suc count) seen (m ∷ left) h =
      ap (on_answer uris left (scan uris uri count (seen ++ m ∷ []) left)) (
        ap (λ s. answer uri (s ++ m ∷ [])) (sym (append-nil seen)) ∙ h [] m left refl (omega arith))
      ∙ scan-all uri count (seen ++ m ∷ []) left (λ shorter e after split n.
        ap (λ s. answer uri (s ++ e ∷ [])) (append_assoc seen (m ∷ []) shorter)
        ∙ h (m ∷ shorter) e after (ap (◌∷◌ m) split) (omega arith))

  count-inspected :
      (follow_leaf : Bool) (prefix : List String) (element : String) (rest : List String)
      → length prefix < inspect_count follow_leaf (prefix ++ element ∷ rest)
      → is_inspected follow_leaf rest ≡ true
  unfolding inspect_count
  count-inspected true prefix element rest h = refl
  count-inspected false prefix element [] h =
      absurd (omega (arith, length-append prefix (element ∷ [])))
  count-inspected false prefix element (child ∷ rest) h = refl

  pub IsDirect-inspect :
      (follow_leaf : Bool) (uri : CrUri)
      → IsDirect follow_leaf uri
      → inspect uris follow_leaf uri ≡ Scan.none_redirected
  unfolding inspect
  IsDirect-inspect follow_leaf uri direct =
      scan-all uri (inspect_count follow_leaf uri.elements) [] uri.elements
        (λ shorter e after split n. direct shorter e after split (
          count-inspected follow_leaf shorter e after
            (subst (λ es. length shorter < inspect_count follow_leaf es) split n)))

  -- The scan at the part that is a redirect.
  scan-at :
      (uri : CrUri) (count : ℕ) (seen : List String) (element : String) (rest : List String)
      (goal : String) (shared : CrUri)
      → 0 < count
      → answer uri (seen ++ element ∷ []) ≡ inr (some goal)
      → uris.new goal ≡ some shared
      → is_search uris shared ≡ false
      → scan uris uri count seen (element ∷ rest) ≡ Scan.redirected (join_all shared rest)
  unfolding scan on_answer follow
  scan-at uri zero seen element rest goal shared n leads reads no_search = absurd (omega arith)
  scan-at uri (suc count) seen element rest goal shared n leads reads no_search =
      ap (on_answer uris rest (scan uris uri count (seen ++ element ∷ []) rest)) leads
      ∙ (ap (follow uris rest) reads ∙ rw no_search refl)

  pub IsRedirected-inspect :
      (follow_leaf : Bool) (uri target : CrUri)
      → IsRedirected follow_leaf uri target
      → inspect uris follow_leaf uri ≡ Scan.redirected target
  unfolding inspect
  IsRedirected-inspect follow_leaf uri target r =
      let count = inspect_count follow_leaf (r.prefix ++ r.element ∷ r.rest) in
      let inside = inspected-count follow_leaf r.prefix r.element r.rest r.inspected in
      ap (λ es. scan uris uri (inspect_count follow_leaf es) [] es) r.split
      ∙ (scan-skip uri count (count - length r.prefix) [] r.prefix (r.element ∷ r.rest)
            (omega arith) r.shortest
          ∙ (scan-at uri (count - length r.prefix) r.prefix r.element r.rest r.goal r.shared
                (omega arith) r.leads r.reads r.no_search
              ∙ ap Scan.redirected (sym r.joined)))
