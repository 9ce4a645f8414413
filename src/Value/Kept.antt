-- ===== src/Value/Kept.antt =====
-- rct/Value.cpp: what a tree of cJSON keeps of a value.
use rct.Prelude.{
  ℕ, ◌+◌, ◌*◌, ◌%◌, ◌<◌, ◌≡◌, refl, sym, ap, ◌∙◌, true, false, List, [], ◌∷◌, ◌==◌, Bool-cases, inl,
  inr, arith,
}
use rct.Serializer.{u32_mod}
use rct.Value.{Value, Values, Entries, of_int}
use rct.Value.{
  invalid, undefined, boolean, integer, double, string, null_custom, custom, map, list, date, nil,
  cons, end, entry,
}
use rct.Value.Numbers.{until_null}
use rct.Value.Order.{
  Above, Precedes, append_entry, append_entries, set_entry-append_entry, Precedes-append_entry,
  append_entries_end, append_entries_entry,
}
use rct.Value.Json.{
  Env, create_number, to_cjson, to_items, to_members, from_number, from_cjson, from_items,
  from_members,
}

pub until_null_idem : (s : List ℕ) → until_null (until_null s) ≡ until_null s
unfolding until_null
until_null_idem [] = refl
until_null_idem (ch ∷ rest) = elim (Bool-cases (ch == 0)) [
  | inl t ↦ rw (t) refl
  | inr f ↦ rw (f, until_null, f, until_null_idem rest) refl
]

-- The keys of all maps ascend, and have no null byte.
unfoldable mutual
  pub HasOrder : Value → Type 0
  HasOrder (map es) = HasOrderEntries es
  HasOrder (list vs) = HasOrderValues vs
  HasOrder v = Unit

  pub HasOrderValues : Values → Type 0
  HasOrderValues nil = Unit
  HasOrderValues (cons v vs) = HasOrder v × HasOrderValues vs

  pub HasOrderEntries : Entries → Type 0
  HasOrderEntries end = Unit
  HasOrderEntries (entry k v es) = (until_null k ≡ k) × Above k es × HasOrder v × HasOrderEntries es

-- Every `int` is a `double` that is equal to it, and `cJSON_CreateNumber` finds it again.
pub record IntsAreDoubles (env : Env) : Type 0 where
  pub found : (n : ℕ) → n < u32_mod → env.valueint (env.of_int32 n) ≡ n
  pub equal : (n : ℕ) → n < u32_mod → env.same n (env.of_int32 n) ≡ true

module _ (env : Env) (upper : ℕ) where
  -- Dates become integers, integers keep four bytes, doubles that are integers become such, strings
  -- end at a null byte, and what is not valid, not defined or a custom object becomes invalid.
  unfoldable mutual
    pub kept : Value → Value
    kept (boolean b) = boolean b
    kept (date t) = of_int upper t
    kept (integer n) = of_int upper n
    kept (double d) = from_number env upper (env.valueint d) d
    kept (string s) = string (until_null s)
    kept (list vs) = list (kept_values vs)
    kept (map es) = map (kept_entries es)
    kept invalid = invalid
    kept undefined = invalid
    kept null_custom = invalid
    kept (custom s) = invalid

    pub kept_values : Values → Values
    kept_values nil = nil
    kept_values (cons v vs) = cons (kept v) (kept_values vs)

    pub kept_entries : Entries → Entries
    kept_entries end = end
    kept_entries (entry k v es) = entry k (kept v) (kept_entries es)

  module _ (law : IntsAreDoubles env) where
    int_back :
        (n : ℕ)
        → from_cjson env upper (create_number env (env.of_int32 (n % u32_mod))) ≡ of_int upper n
    unfolding from_cjson create_number from_number of_int
    int_back n =
        let small : n % u32_mod < u32_mod = omega arith in
        rw (law.found (n % u32_mod) small, law.equal (n % u32_mod) small)
          (ap (λ x. integer (x + upper * u32_mod)) (omega arith))

    mutual
      unfolding to_cjson from_cjson kept HasOrder Precedes append_entries create_number

      tree_back : (v : Value) → HasOrder v → from_cjson env upper (to_cjson env v) ≡ kept v
      tree_back invalid h = refl
      tree_back undefined h = refl
      tree_back (boolean true) h = refl
      tree_back (boolean false) h = refl
      tree_back (integer n) h = int_back n
      tree_back (double d) h = refl
      tree_back (string s) h = ap (λ x. string x) (until_null_idem s)
      tree_back null_custom h = refl
      tree_back (custom s) h = refl
      tree_back (map es) h = ap (λ x. map x) (entries_back es end h _)
      tree_back (list vs) h = ap (λ x. list x) (values_back vs h)
      tree_back (date t) h = int_back t

      values_back :
          (vs : Values)
          → HasOrderValues vs
          → from_items env upper (to_items env vs) ≡ kept_values vs
      values_back nil h = refl
      values_back (cons v vs) h = rw (tree_back v h.0, values_back vs h.1) refl

      entries_back :
          (es ds : Entries)
          → HasOrderEntries es
          → Precedes ds es
          → from_members env upper (to_members env es) ds ≡ append_entries ds (kept_entries es)
      entries_back end ds h p = sym (append_entries_end ds)
      entries_back (entry k v es) ds h p =
          let (clean, above, here, more) = h in
          rw (clean, clean, tree_back v here, set_entry-append_entry ds k (kept v) v es p)
            (entries_back es (append_entry ds k (kept v)) more
                (Precedes-append_entry ds k (kept v) v es p above)
              ∙ append_entries_entry ds k (kept v) (kept_entries es))

-- What `toCJSON` makes of a value, `fromCJSON` makes the value again, but that dates and integers
-- become integers of four bytes, doubles that cJSON takes for integers become such, strings end at
-- a null byte, and custom objects and undefined become invalid; if every int is a double and cJSON
-- finds it again, and the keys of maps ascend and have no null byte.
pub from_cjson-to_cjson :
    (env : Env) (upper : ℕ) (v : Value)
    → IntsAreDoubles env
    → HasOrder v
    → from_cjson env upper (to_cjson env v) ≡ kept env upper v
from_cjson-to_cjson env upper v law h = tree_back env upper law v h
