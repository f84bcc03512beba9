-- ===== src/Server/Methods/Names.antt =====
-- Which method a name leads to after services were registered.
use mathlib.Core.Bool.{true≢false}
use evm_rpc.Prelude.{
  ◌≡◌, ◌≢◌, refl, ap, ◌∙◌, sym, Bool, true, false, ◌&&◌, Option, none, some, Text, text, text_eq,
  text_eq_iff, ◌++◌, List, [], ◌∷◌, Map, text_key, lookup, lookup-insert, arith, leb, ◌==◌,
  if◌then◌else◌, if_false, Bool-cases, inl, inr, ◌⊎◌,
}
use evm_rpc.Server.Methods.{
  Program, Method, MethodHandler, method_name, entry_of, put, register_service, register_services,
}

-- Reflection shows exported methods only: their names begin with an upper-case letter.
abbrev pub is_exported : Text → Bool
is_exported [] = false
is_exported (c ∷ _) = leb b'A' c && leb c b'Z'

-- What stands behind the first underscore.
unfoldable pub after_underscore : Text → Text
after_underscore [] = []
after_underscore (c ∷ s) = if c == b'_' then s else after_underscore s

abbrev pub HasNoUnderscore : Text → Type 0
HasNoUnderscore [] = Unit
HasNoUnderscore (c ∷ s) = (c ≢ b'_') × HasNoUnderscore s

after_underscore-append :
    (namespace s : Text)
    → HasNoUnderscore namespace
    → after_underscore (namespace ++ (text "_" ++ s)) ≡ s
unfolding after_underscore
after_underscore-append [] s h = refl
after_underscore-append (c ∷ n) s h = ground (arith, after_underscore-append n s)

module _ (p : Program) where
  abbrev pub or_else :
      Option (MethodHandler p) → Option (MethodHandler p) → Option (MethodHandler p)
  or_else (some h) o = some h
  or_else none o = o

  -- The last valid method of a service whose name in the namespace is the key.
  unfoldable pub last_named : Text → Text → List (Method p) → Option (MethodHandler p)
  last_named namespace key [] = none
  last_named namespace key (m ∷ ms) =
      or_else (last_named namespace key ms)
        (if text_eq (method_name p namespace m) key then entry_of p m else none)

  lookup-put :
      (name key : Text) (o : Option (MethodHandler p)) (table : Map Text (MethodHandler p))
      → lookup key (put p name o table)
        ≡ or_else (if text_eq name key then o else none) (lookup key table)
  lookup-put name key none table = elim (Bool-cases (text_eq name key)) [
    | inl e ↦ rw e
    | inr e ↦ rw e
  ]
  lookup-put name key (some h) table = lookup-insert name key h table ∙ ground arith

  or_else_assoc :
      (a b c : Option (MethodHandler p)) → or_else a (or_else b c) ≡ or_else (or_else a b) c
  or_else_assoc none b c = refl
  or_else_assoc (some h) b c = refl

  -- Registering a service changes the table exactly at the names of its valid methods, where the
  -- last one of the name counts.
  pub lookup-register_service :
      (namespace key : Text) (ms : List (Method p)) (table : Map Text (MethodHandler p))
      → lookup key (register_service p namespace ms table)
        ≡ or_else (last_named namespace key ms) (lookup key table)
  unfolding register_service last_named
  lookup-register_service namespace key [] table = refl
  lookup-register_service namespace key (m ∷ ms) table =
      lookup-register_service namespace key ms
        (put p (method_name p namespace m) (entry_of p m) table)
      ∙ ap (or_else (last_named namespace key ms))
          (lookup-put (method_name p namespace m) key (entry_of p m) table)
      ∙ or_else_assoc (last_named namespace key ms) _ (lookup key table)

  abbrev pub AllExported : List (Method p) → Type 0
  AllExported [] = Unit
  AllExported (m ∷ ms) = (is_exported m.name ≡ true) × AllExported ms

  abbrev pub AllServices : List (Text × List (Method p)) → Type 0
  AllServices [] = Unit
  AllServices ((namespace, ms) ∷ rest) =
      HasNoUnderscore namespace × AllExported ms × AllServices rest

  module _ (key : Text) (low : is_exported (after_underscore key) ≡ false) where
    last_named-low :
        (namespace : Text) (ms : List (Method p))
        → HasNoUnderscore namespace
        → AllExported ms
        → last_named namespace key ms ≡ none
    unfolding last_named
    last_named-low namespace [] n h = refl
    last_named-low namespace (m ∷ ms) n h =
        rw (last_named-low namespace ms n h.1) (if_false _ _ (differ (Bool-cases _)))
      where
        differ :
            (text_eq (method_name p namespace m) key ≡ true)
              ⊎ (text_eq (method_name p namespace m) key ≡ false)
            → text_eq (method_name p namespace m) key ≡ false
        differ (inr e) = e
        differ (inl e) = absurd (
            true≢false (
              sym h.0
              ∙ ap is_exported (
                  sym (after_underscore-append namespace m.name n)
                  ∙ ap after_underscore ((text_eq_iff _ key).0 e))
              ∙ low))

    -- The services' methods are found under names with an upper-case letter behind the underscore
    -- only, so no other name is known: `eth_blockNumber` is not.
    pub lookup-register_services :
        (services : List (Text × List (Method p))) (table : Map Text (MethodHandler p))
        → AllServices services
        → lookup key (register_services p services table) ≡ lookup key table
    unfolding register_services
    lookup-register_services [] table h = refl
    lookup-register_services ((namespace, ms) ∷ rest) table h =
        lookup-register_services rest (register_service p namespace ms table) h.2
        ∙ lookup-register_service namespace key ms table
        ∙ ap (λ o. or_else o (lookup key table)) (last_named-low namespace ms h.0 h.1)
