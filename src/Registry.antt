-- ===== src/Registry.antt =====
-- `DriverRegistry`, xvcSrv/src/xvcSrv.cc and xvcDriver.h: the drivers by their names. A factory is
-- its driver's own: a function of the arguments and the target. The one object of the class is an
-- argument here.
use xvc_support.Base.{
  ◌≡◌, Bool, true, false, Option, none, some, List, [], ◌∷◌, ◌++◌, if◌then◌else◌, not, ◌&&◌, Result,
  err, runtime_error, Bool-cases, inl, inr,
}
use Prim.Native.String.{String}
use text.Mathlib.Text.{◌==◌ as str_eq}
use mathlib.Core.List.{reverse, reverse-append}

-- `RegEntry`; `creator` is `none` for a null pointer.
pub record Entry (J : Type 0) : Type 0 where
  pub name : String
  pub creator : Option (List String → Option String → Result J)
  pub need_target_arg : Bool

-- `s && *s`
unfoldable pub is_given : Option String → Bool
is_given none = false
is_given (some s) = not (str_eq s "")

module _ {J : Type 0} where
  unfoldable pub register_factory : Entry J → List (Entry J) → List (Entry J)
  register_factory e entries = entries ++ (e ∷ [])

  -- The loop of `find`, with the entries from the last one on.
  unfoldable pub find_from : String → List (Entry J) → Option (Entry J)
  find_from drvnam [] = none
  find_from drvnam (e ∷ es) = if str_eq e.name drvnam then some e else find_from drvnam es

  -- Without a name it is the last entry.
  unfoldable pub last_entry : List (Entry J) → Option (Entry J)
  last_entry [] = none
  last_entry (e ∷ es) = some e

  unfoldable pub find : Option String → List (Entry J) → Option (Entry J)
  unfolding is_given find_from last_entry
  find none entries = last_entry (reverse entries)
  find (some drvnam) entries =
      if is_given (some drvnam)
      then find_from drvnam (reverse entries)
      else last_entry (reverse entries)

  abbrev pub has : Option String → List (Entry J) → Bool
  has drvnam entries = elim (find drvnam entries) [ none ↦ false | some e ↦ true ]

  -- `create` on the entry found.
  unfoldable pub create_by : Option (Entry J) → List String → Option String → Result J
  create_by none argv arg = err runtime_error
  create_by (some e) argv arg = elim e.creator [
    | none ↦ err runtime_error
    | some make ↦
        if e.need_target_arg && not (is_given arg) then err runtime_error else make argv arg
  ]

  unfoldable pub create : Option String → List String → Option String → List (Entry J) → Result J
  unfolding create_by
  create name argv arg entries = create_by (find name entries) argv arg

  -- Whether an entry is the one looked for: any is without a name.
  abbrev pub answers_to : Option String → Entry J → Bool
  answers_to none e = true
  answers_to (some nam) e = if is_given (some nam) then str_eq e.name nam else true

  -- A driver that is registered is the one found without a name; by a name it is found before
  -- those registered earlier, which are found as before by every other name.
  pub find-register_factory :
      (e : Entry J) (entries : List (Entry J)) (drvnam : Option String)
      → find drvnam (register_factory e entries)
        ≡ (if answers_to drvnam e then some e else find drvnam entries)
  unfolding register_factory find is_given find_from last_entry
  find-register_factory e entries none = rw (reverse-append entries (e ∷ []))
  find-register_factory e entries (some nam) = elim (Bool-cases (str_eq nam "")) [
    | inl empty ↦ rw (reverse-append entries (e ∷ []), empty)
    | inr given ↦ rw (reverse-append entries (e ∷ []), given)
  ]

  -- What is registered under a name is created by that name, which is not empty, unless it needs a
  -- target and gets none.
  create-register_factory :
      (name nam : String) (make : List String → Option String → Result J) (need : Bool)
      (entries : List (Entry J)) (argv : List String) (arg : Option String)
      → is_given (some nam) ≡ true
      → str_eq name nam ≡ true
      → create (some nam) argv arg (
          register_factory
            (record { name = name; creator = some make; need_target_arg = need })
            entries)
        ≡ (if need && not (is_given arg) then err runtime_error else make argv arg)
  unfolding create create_by
  create-register_factory name nam make need entries argv arg h e =
      rw
        (find-register_factory (record { name = name; creator = some make; need_target_arg = need })
          entries (some nam))
        (rw (h, e))
