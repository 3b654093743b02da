-- ===== src/Application/Replay/Safe.antt =====
-- What the snapshot's filter lets through.
use safety_grounded_agent.Prelude.{
  String, All, List, [], ◌∷◌, ◌≢◌, eq_iff, sym, any, not, ◌==◌, string_has_eq, ◌≡◌, refl, ◌⊎◌, inl,
  inr, ◌↔◌, true, arith, Bool-cases,
}
use safety_grounded_agent.Json.{
  Json, null, boolean, integer, float, text, array, tuple, object, other, finite, infinite,
  not_a_number, Items, nil, cons, Fields, end, field, Key, name, no_string,
}
use safety_grounded_agent.Database.Errors.{Error, ok, err, Result-cases}
use safety_grounded_agent.Application.Replay.{
  safe_json, safe_items, safe_fields, allowed_key, forbidden_keys,
}

-- A value stands somewhere inside another one, at any depth, or a key does.
mutual
  pub data Within : Json → Json → Type 0 where
    itself : {v : Json} → Within v v
    of_array : {w : Json} {items : Items} → WithinItems w items → Within w (array items)
    of_tuple : {w : Json} {items : Items} → WithinItems w items → Within w (tuple items)
    of_object : {w : Json} {fields : Fields} → WithinFields w fields → Within w (object fields)

  pub data WithinItems : Json → Items → Type 0 where
    first : {w v : Json} {items : Items} → Within w v → WithinItems w (cons v items)
    later : {w v : Json} {items : Items} → WithinItems w items → WithinItems w (cons v items)

  pub data WithinFields : Json → Fields → Type 0 where
    value :
        {w v : Json} {key : Key} {fields : Fields}
        → Within w v
        → WithinFields w (field key v fields)
    rest :
        {w v : Json} {key : Key} {fields : Fields}
        → WithinFields w fields
        → WithinFields w (field key v fields)

-- The keys of an object, at its own level.
pub data HasKey : Key → Fields → Type 0 where
  here : {key : Key} {v : Json} {fields : Fields} → HasKey key (field key v fields)
  there :
      {key other_key : Key} {v : Json} {fields : Fields}
      → HasKey key fields
      → HasKey key (field other_key v fields)

-- The value as it is stored: every tuple in it has become a list.
unfoldable mutual
  pub listed : Json → Json
  listed (array items) = array (listed_items items)
  listed (tuple items) = array (listed_items items)
  listed (object fields) = object (listed_fields fields)
  listed v = v

  pub listed_items : Items → Items
  listed_items nil = nil
  listed_items (cons v items) = cons (listed v) (listed_items items)

  pub listed_fields : Fields → Fields
  listed_fields end = end
  listed_fields (field key v fields) = field key (listed v) (listed_fields fields)

-- The words that no key may be.
abbrev secret_words : List String
secret_words =
    "raw_response" ∷ "debug" ∷ "token" ∷ "jwt" ∷ "claims" ∷ "email" ∷ "prompt" ∷ "authorization"
    ∷ "security_trace" ∷ []

none_equal :
    (word : String) (words : List String)
    → not (any (λ w. w == word) words) ≡ true
    → All (λ w. word ≢ w) words
none_equal word [] h = tt
none_equal word (w ∷ words) h =
    (λ e. ground (arith, eq_iff w word, sym e, h), none_equal word words (ground (arith, h)))

none_equal_back :
    (word : String) (words : List String)
    → All (λ w. word ≢ w) words
    → not (any (λ w. w == word) words) ≡ true
none_equal_back word [] h = refl
none_equal_back word (w ∷ words) (differs, h) = elim (Bool-cases (w == word)) [
  | inl same ↦ absurd (differs (sym ((eq_iff w word).0 same)))
  | inr other_word ↦ ground (arith, other_word, none_equal_back word words h)
]

module _ (lower : String → String) where
  -- The key is a text, and in lower case none of the words.
  abbrev pub IsAllowed : Key → Type 0
  IsAllowed (name key) = All (λ word. lower key ≢ word) secret_words
  IsAllowed no_string = ⊥

  allowed_key_sound : (key : Key) → allowed_key lower key ≡ true → IsAllowed key
  unfolding allowed_key
  allowed_key_sound (name key) h = none_equal (lower key) forbidden_keys h
  allowed_key_sound no_string h = cc

  allowed_key_complete : (key : Key) → IsAllowed key → allowed_key lower key ≡ true
  unfolding allowed_key
  allowed_key_complete (name key) h = none_equal_back (lower key) forbidden_keys h
  allowed_key_complete no_string h = absurd h

  -- The value, taken by itself, may be stored: it is of a JSON type, a finite number if it is a
  -- float, and an object's own keys are allowed.
  abbrev pub IsPlain : Json → Type 0
  IsPlain (float (infinite negative)) = ⊥
  IsPlain (float not_a_number) = ⊥
  IsPlain other = ⊥
  IsPlain (object fields) = (key : Key) → HasKey key fields → IsAllowed key
  IsPlain _ = Unit

  array_inv :
      (items : Items) (x : Json)
      → safe_json lower (array items) ≡ ok x
      → (y : Items) × (safe_items lower items ≡ ok y)
  unfolding safe_json
  array_inv items x h = elim (Result-cases (safe_items lower items)) [
    | inl found ↦ found
    | inr (e, q) ↦ ground (arith, q, h)
  ]

  tuple_inv :
      (items : Items) (x : Json)
      → safe_json lower (tuple items) ≡ ok x
      → (y : Items) × (safe_items lower items ≡ ok y)
  unfolding safe_json
  tuple_inv items x h = elim (Result-cases (safe_items lower items)) [
    | inl found ↦ found
    | inr (e, q) ↦ ground (arith, q, h)
  ]

  object_inv :
      (fields : Fields) (x : Json)
      → safe_json lower (object fields) ≡ ok x
      → (y : Fields) × (safe_fields lower fields ≡ ok y)
  unfolding safe_json
  object_inv fields x h = elim (Result-cases (safe_fields lower fields)) [
    | inl found ↦ found
    | inr (e, q) ↦ ground (arith, q, h)
  ]

  cons_inv :
      (v : Json) (items x : Items)
      → safe_items lower (cons v items) ≡ ok x
      → ((a : Json) × (safe_json lower v ≡ ok a)) × ((b : Items) × (safe_items lower items ≡ ok b))
  unfolding safe_items
  cons_inv v items x h = elim (Result-cases (safe_json lower v)) [
    | inr (e, q) ↦ ground (arith, q, h)
    | inl (a, q) ↦ elim (Result-cases (safe_items lower items)) [
      | inr (e, q') ↦ ground (arith, q, q', h)
      | inl found ↦ ((a, q), found)
    ]
  ]

  field_inv :
      (key : Key) (v : Json) (fields x : Fields)
      → safe_fields lower (field key v fields) ≡ ok x
      → (allowed_key lower key ≡ true)
        × ((a : Json) × (safe_json lower v ≡ ok a))
        × ((b : Fields) × (safe_fields lower fields ≡ ok b))
  unfolding safe_fields
  field_inv key v fields x h = elim (Bool-cases (allowed_key lower key)) [
    | inr q ↦ ground (arith, q, h)
    | inl allowed ↦ elim (Result-cases (safe_json lower v)) [
      | inr (e, q) ↦ ground (arith, allowed, q, h)
      | inl (a, q) ↦ elim (Result-cases (safe_fields lower fields)) [
        | inr (e, q') ↦ ground (arith, allowed, q, q', h)
        | inl found ↦ (allowed, (a, q), found)
      ]
    ]
  ]

  keys_ok :
      (key : Key) (fields x : Fields)
      → safe_fields lower fields ≡ ok x
      → HasKey key fields
      → allowed_key lower key ≡ true
  keys_ok key end x h has = elim has [ ]
  keys_ok key (field k v fields) x h here = (field_inv k v fields x h).0
  keys_ok key (field k v fields) x h (there has) =
      let (_, _, (y, q)) = field_inv k v fields x h in keys_ok key fields y q has

  IsPlain-ok : (v x : Json) → safe_json lower v ≡ ok x → IsPlain v
  unfolding safe_json
  IsPlain-ok null x h = tt
  IsPlain-ok (boolean b) x h = tt
  IsPlain-ok (integer n) x h = tt
  IsPlain-ok (float (finite m e)) x h = tt
  IsPlain-ok (float (infinite b)) x h = cc h
  IsPlain-ok (float not_a_number) x h = cc h
  IsPlain-ok (text s) x h = tt
  IsPlain-ok (array items) x h = tt
  IsPlain-ok (tuple items) x h = tt
  IsPlain-ok (object fields) x h = λ key has.
      let (y, q) = object_inv fields x h in allowed_key_sound key (keys_ok key fields y q has)
  IsPlain-ok other x h = cc h

  mutual
    pub Within-IsPlain :
        {w v : Json} → Within w v → (x : Json) → safe_json lower v ≡ ok x → IsPlain w
    Within-IsPlain {w} itself x h = IsPlain-ok w x h
    Within-IsPlain (of_array {items} inside) x h =
        let (y, q) = array_inv items x h in within_items inside y q
    Within-IsPlain (of_tuple {items} inside) x h =
        let (y, q) = tuple_inv items x h in within_items inside y q
    Within-IsPlain (of_object {fields} inside) x h =
        let (y, q) = object_inv fields x h in within_fields inside y q

    within_items :
        {w : Json} {items : Items}
        → WithinItems w items
        → (x : Items) → safe_items lower items ≡ ok x
        → IsPlain w
    within_items (first {v} {items} inside) x h =
        let ((y, q), _) = cons_inv v items x h in Within-IsPlain inside y q
    within_items (later {v} {items} inside) x h =
        let (_, (y, q)) = cons_inv v items x h in within_items inside y q

    within_fields :
        {w : Json} {fields : Fields}
        → WithinFields w fields
        → (x : Fields) → safe_fields lower fields ≡ ok x
        → IsPlain w
    within_fields (value {v} {key} {fields} inside) x h =
        let (_, (y, q), _) = field_inv key v fields x h in Within-IsPlain inside y q
    within_fields (rest {v} {key} {fields} inside) x h =
        let (_, _, (y, q)) = field_inv key v fields x h in within_fields inside y q

  mutual
    unfolding safe_json safe_items safe_fields listed listed_items listed_fields

    pub plain_safe :
        (v : Json) → ((w : Json) → Within w v → IsPlain w) → safe_json lower v ≡ ok (listed v)
    plain_safe null h = refl
    plain_safe (boolean b) h = refl
    plain_safe (integer n) h = refl
    plain_safe (float (finite m e)) h = refl
    plain_safe (float (infinite b)) h = absurd (h (float (infinite b)) itself)
    plain_safe (float not_a_number) h = absurd (h (float not_a_number) itself)
    plain_safe (text s) h = refl
    plain_safe (array items) h =
        let e = plain_items items (λ w inside. h w (of_array inside)) in ground (arith, e)
    plain_safe (tuple items) h =
        let e = plain_items items (λ w inside. h w (of_tuple inside)) in ground (arith, e)
    plain_safe (object fields) h =
        let e =
          plain_fields fields
            (λ key has. allowed_key_complete key (h (object fields) itself key has))
            (λ w inside. h w (of_object inside)) in
        ground (arith, e)
    plain_safe other h = absurd (h other itself)

    plain_items :
        (items : Items)
        → ((w : Json) → WithinItems w items → IsPlain w)
        → safe_items lower items ≡ ok (listed_items items)
    plain_items nil h = refl
    plain_items (cons v items) h =
        let e = plain_safe v (λ w inside. h w (first inside)) in
        let e' = plain_items items (λ w inside. h w (later inside)) in ground (arith, e, e')

    plain_fields :
        (fields : Fields)
        → ((key : Key) → HasKey key fields → allowed_key lower key ≡ true)
        → ((w : Json) → WithinFields w fields → IsPlain w)
        → safe_fields lower fields ≡ ok (listed_fields fields)
    plain_fields end keys h = refl
    plain_fields (field key v fields) keys h =
        let e = plain_safe v (λ w inside. h w (value inside)) in
        let e' =
          plain_fields fields (λ k has. keys k (there has)) (λ w inside. h w (rest inside)) in
        let allowed = keys key here in ground (arith, allowed, e, e')

  mutual
    unfolding safe_json safe_items safe_fields listed listed_items listed_fields

    pub listed_or_error :
        (v : Json)
        → (safe_json lower v ≡ ok (listed v)) ⊎ (safe_json lower v ≡ err Error.replay_snapshot)
    listed_or_error null = inl refl
    listed_or_error (boolean b) = inl refl
    listed_or_error (integer n) = inl refl
    listed_or_error (float (finite m e)) = inl refl
    listed_or_error (float (infinite b)) = inr refl
    listed_or_error (float not_a_number) = inr refl
    listed_or_error (text s) = inl refl
    listed_or_error (array items) = elim (listed_items_or_error items) [
      | inl e ↦ inl (ground (arith, e))
      | inr e ↦ inr (ground (arith, e))
    ]
    listed_or_error (tuple items) = elim (listed_items_or_error items) [
      | inl e ↦ inl (ground (arith, e))
      | inr e ↦ inr (ground (arith, e))
    ]
    listed_or_error (object fields) = elim (listed_fields_or_error fields) [
      | inl e ↦ inl (ground (arith, e))
      | inr e ↦ inr (ground (arith, e))
    ]
    listed_or_error other = inr refl

    listed_items_or_error :
        (items : Items)
        → (safe_items lower items ≡ ok (listed_items items))
          ⊎ (safe_items lower items ≡ err Error.replay_snapshot)
    listed_items_or_error nil = inl refl
    listed_items_or_error (cons v items) = elim (listed_or_error v) [
      | inr e ↦ inr (ground (arith, e))
      | inl e ↦ elim (listed_items_or_error items) [
        | inl e' ↦ inl (ground (arith, e, e'))
        | inr e' ↦ inr (ground (arith, e, e'))
      ]
    ]

    listed_fields_or_error :
        (fields : Fields)
        → (safe_fields lower fields ≡ ok (listed_fields fields))
          ⊎ (safe_fields lower fields ≡ err Error.replay_snapshot)
    listed_fields_or_error end = inl refl
    listed_fields_or_error (field key v fields) = elim (Bool-cases (allowed_key lower key)) [
      | inr bad ↦ inr (ground (arith, bad))
      | inl allowed ↦ elim (listed_or_error v) [
        | inr e ↦ inr (ground (arith, allowed, e))
        | inl e ↦ elim (listed_fields_or_error fields) [
          | inl e' ↦ inl (ground (arith, allowed, e, e'))
          | inr e' ↦ inr (ground (arith, allowed, e, e'))
        ]
      ]
    ]

-- The filter of the snapshots returns a value, with its tuples made lists, exactly when everything within it, at
-- any depth, may be stored: no infinite or undefined number, no object of another type, no key that is
-- no text or that is one of nine words in lower case. Otherwise it raises the snapshot error.
pub safe_json_exact :
    (lower : String → String) (v : Json)
    → ((safe_json lower v ≡ ok (listed v)) ↔ ((w : Json) → Within w v → IsPlain lower w))
      × ((safe_json lower v ≡ ok (listed v)) ⊎ (safe_json lower v ≡ err Error.replay_snapshot))
safe_json_exact lower v = (
  (λ h w inside. Within-IsPlain lower inside (listed v) h, plain_safe lower v),
  listed_or_error lower v,
)
