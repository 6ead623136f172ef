-- ===== src/Har/Normalize/Bodies.antt =====
-- Normalising a request that has been normalised: each step finds done what it does.
use qdrust.Base.{
  Text, text_eq, codes, ◌⊎◌, true, false, Option, none, some, is_some, ◌≡◌, refl, sym, ap, ◌∙◌, inl,
  inr, Bool-cases,
}
use qdrust.Json.{
  Value, Items, Fields, null, bool, number, string, array, object, no_items, item, no_fields,
  get_field,
}
use qdrust.Json.Objects.{
  has_field, or_insert, alter_field, get_field-insert_field, get_field-alter_field, or_insert-same,
  has_field-or_insert, or_insert-has_field, or_insert-twice, get_field-altered,
  get_field-or_inserted, has_field-alter_field, alter_field-again,
}
use qdrust.Har.Normalize.{
  put_body, form_text, put_text, fill_post, has_body, set_post, post_step, check_item, map_items,
  check_items, normalize_request, text_in,
}

pub map_items-twice :
    (f : Value → Value) (vs : Items)
    → ((v : Value) → f (f v) ≡ f v)
    → map_items f (map_items f vs) ≡ map_items f vs
unfolding map_items
map_items-twice f no_items h = refl
map_items-twice f (item v vs) h = rw (h v, map_items-twice f vs h) refl

form_text-same : (post : Fields) → has_field (codes "text") post ≡ true → form_text post ≡ post
unfolding form_text
form_text-same post h = rw h refl

-- A body is written from the parameters, or nothing is.
put_body_lem :
    (o : Option Value) (post : Fields)
    → (put_body o post ≡ post) ⊎ (has_field (codes "text") (put_body o post) ≡ true)
unfolding put_body has_field
put_body_lem none post = inl refl
put_body_lem (some null) post = inl refl
put_body_lem (some (bool b)) post = inl refl
put_body_lem (some (number n)) post = inl refl
put_body_lem (some (string t)) post = inl refl
put_body_lem (some (object fs)) post = inl refl
put_body_lem (some (array vs)) post =
    inr (rw (get_field-insert_field (codes "text") (codes "text") _ post) refl)

form_text-twice : (post : Fields) → form_text (form_text post) ≡ form_text post
unfolding form_text
form_text-twice post = elim (Bool-cases (has_field (codes "text") post)) [
  | inl e ↦ ap form_text (form_text-same post e)
  | inr e ↦ elim (put_body_lem (get_field (codes "params") post) post) [
    | inl f ↦ (let same : form_text post ≡ post = rw e f in ap form_text same)
    | inr f ↦
        (let body : form_text post ≡ put_body (get_field (codes "params") post) post = rw e refl in
          form_text-same (form_text post) (rw body f))
  ]
]

put_body-has_field :
    (k : Text) (o : Option Value) (post : Fields)
    → has_field k post ≡ true
    → has_field k (put_body o post) ≡ true
unfolding put_body has_field
put_body-has_field k none post h = h
put_body-has_field k (some null) post h = h
put_body-has_field k (some (bool b)) post h = h
put_body-has_field k (some (number n)) post h = h
put_body-has_field k (some (string t)) post h = h
put_body-has_field k (some (object fs)) post h = h
put_body-has_field k (some (array vs)) post h =
    rw (get_field-insert_field (codes "text") k _ post)
      (elim (Bool-cases (text_eq (codes "text") k)) [ inl e ↦ rw e refl | inr e ↦ rw e h ])

form_text-has_field :
    (k : Text) (post : Fields) → has_field k post ≡ true → has_field k (form_text post) ≡ true
unfolding form_text
form_text-has_field k post h = elim (Bool-cases (has_field (codes "text") post)) [
  | inl e ↦ rw e h
  | inr e ↦ rw e (put_body-has_field k (get_field (codes "params") post) post h)
]

put_text-same :
    (k : Text) (o : Option Text) (post : Fields)
    → (is_some o ≡ true → has_field k post ≡ true)
    → put_text k o post ≡ post
unfolding put_text
put_text-same k none post h = refl
put_text-same k (some t) post h = or_insert-same k (string t) post (h refl)

put_text-has_field :
    (k j : Text) (o : Option Text) (post : Fields)
    → has_field j post ≡ true
    → has_field j (put_text k o post) ≡ true
unfolding put_text
put_text-has_field k j none post h = h
put_text-has_field k j (some t) post h = has_field-or_insert k j (string t) post h

put_text-put :
    (k : Text) (o : Option Text) (post : Fields)
    → is_some o ≡ true
    → has_field k (put_text k o post) ≡ true
unfolding put_text
put_text-put k none post h = cc
put_text-put k (some t) post h = or_insert-has_field k (string t) post

fill_post-twice :
    (body mime_type : Option Text) (v : Value)
    → fill_post body mime_type (fill_post body mime_type v) ≡ fill_post body mime_type v
unfolding fill_post
fill_post-twice body mime_type null = refl
fill_post-twice body mime_type (bool b) = refl
fill_post-twice body mime_type (number n) = refl
fill_post-twice body mime_type (string t) = refl
fill_post-twice body mime_type (array vs) = refl
fill_post-twice body mime_type (object post) =
    let p1 = put_text (codes "text") body post in
    let p2 = put_text (codes "mimeType") mime_type p1 in
    let p3 = form_text p2 in
    let text_there : is_some body ≡ true → has_field (codes "text") p3 ≡ true = λ h.
      form_text-has_field (codes "text") p2 (
        put_text-has_field (codes "mimeType") (codes "text") mime_type p1
          (put_text-put (codes "text") body post h)) in
    let mime_there : is_some mime_type ≡ true → has_field (codes "mimeType") p3 ≡ true = λ h.
      form_text-has_field (codes "mimeType") p2 (put_text-put (codes "mimeType") mime_type p1 h) in
    ap object (
      rw
        (
          put_text-same (codes "text") body p3 text_there,
          put_text-same (codes "mimeType") mime_type p3 mime_there,
        )
        (form_text-twice p2))

written : Option Text → Option Text → Fields → Fields
written body mime_type request =
    alter_field (codes "postData") (fill_post body mime_type)
      (or_insert (codes "postData") (object no_fields) request)

set_post_cases :
    (body mime_type : Option Text) (request : Fields)
    → (set_post body mime_type request ≡ request)
      ⊎ (set_post body mime_type request ≡ written body mime_type request)
unfolding set_post written
set_post_cases body mime_type request =
    elim (Bool-cases (has_body body mime_type (get_field (codes "postData") request))) [
      | inl e ↦ inr (rw e refl)
      | inr e ↦ inl (rw e refl)
    ]

written-twice :
    (body mime_type : Option Text) (request : Fields)
    → written body mime_type (written body mime_type request) ≡ written body mime_type request
unfolding written
written-twice body mime_type request =
    let first = or_insert (codes "postData") (object no_fields) request in
    let there = or_insert-has_field (codes "postData") (object no_fields) request in
    let again = alter_field (codes "postData") (fill_post body mime_type) first in
    let still : has_field (codes "postData") again ≡ true =
      has_field-alter_field (codes "postData") (codes "postData") _ first ∙ there in
    rw (or_insert-same (codes "postData") (object no_fields) again still) (
      alter_field-again (codes "postData") (fill_post body mime_type)
        (get_field (codes "postData") first) again (fill_post-twice body mime_type)
        (get_field-alter_field (codes "postData") (codes "postData") _ first))

set_post-twice :
    (body mime_type : Option Text) (request : Fields)
    → set_post body mime_type (set_post body mime_type request) ≡ set_post body mime_type request
set_post-twice body mime_type request = elim (set_post_cases body mime_type request) [
  | inl e ↦ ap (set_post body mime_type) e
  | inr e ↦ elim (set_post_cases body mime_type (written body mime_type request)) [
    | inl f ↦ ap (set_post body mime_type) e ∙ f ∙ sym e
    | inr f ↦ ap (set_post body mime_type) e ∙ f ∙ written-twice body mime_type request ∙ sym e
  ]
]

set_post-other :
    (k : Text) (body mime_type : Option Text) (request : Fields)
    → text_eq (codes "postData") k ≡ false
    → get_field k (set_post body mime_type request) ≡ get_field k request
unfolding written
set_post-other k body mime_type request h = elim (set_post_cases body mime_type request) [
  | inl e ↦ ap (get_field k) e
  | inr e ↦
      ap (get_field k) e
      ∙ get_field-altered (codes "postData") k _ _ h
      ∙ get_field-or_inserted (codes "postData") k _ request h
]

post_step-twice : (request : Fields) → post_step (post_step request) ≡ post_step request
unfolding post_step
post_step-twice request =
    let body = text_in (get_field (codes "data") request) in
    let mime_type = text_in (get_field (codes "mimeType") request) in
    rw
      (
        set_post-other (codes "data") body mime_type request refl,
        set_post-other (codes "mimeType") body mime_type request refl,
      )
      (set_post-twice body mime_type request)

check_item-twice : (v : Value) → check_item (check_item v) ≡ check_item v
unfolding check_item
check_item-twice null = refl
check_item-twice (bool b) = refl
check_item-twice (number n) = refl
check_item-twice (string t) = refl
check_item-twice (array vs) = refl
check_item-twice (object fs) = ap object (or_insert-twice (codes "checked") (bool true) fs)

check_items-twice : (v : Value) → check_items (check_items v) ≡ check_items v
unfolding check_items
check_items-twice null = refl
check_items-twice (bool b) = refl
check_items-twice (number n) = refl
check_items-twice (string t) = refl
check_items-twice (array vs) = ap array (map_items-twice check_item vs check_item-twice)
check_items-twice (object fs) = refl

request_fields-twice :
    (request : Fields)
    → normalize_request (normalize_request (object request)) ≡ normalize_request (object request)
unfolding normalize_request post_step
request_fields-twice request =
    let r1 = alter_field (codes "headers") check_items request in
    let r2 = alter_field (codes "cookies") check_items r1 in
    let r3 = post_step r2 in
    let headers : alter_field (codes "headers") check_items r3 ≡ r3 =
      alter_field-again (codes "headers") check_items (get_field (codes "headers") request) r3
        check_items-twice
        (set_post-other (codes "headers") _ _ r2 refl
          ∙ get_field-altered (codes "cookies") (codes "headers") check_items r1 refl
          ∙ get_field-alter_field (codes "headers") (codes "headers") check_items request) in
    let cookies : alter_field (codes "cookies") check_items r3 ≡ r3 =
      alter_field-again (codes "cookies") check_items (get_field (codes "cookies") r1) r3
        check_items-twice
        (set_post-other (codes "cookies") _ _ r2 refl
          ∙ get_field-alter_field (codes "cookies") (codes "cookies") check_items r1) in
    ap object (
      ap (λ r. post_step (alter_field (codes "cookies") check_items r)) headers
      ∙ ap post_step cookies
      ∙ post_step-twice r2)

pub normalize_request-twice :
    (v : Value) → normalize_request (normalize_request v) ≡ normalize_request v
unfolding normalize_request
normalize_request-twice null = refl
normalize_request-twice (bool b) = refl
normalize_request-twice (number n) = refl
normalize_request-twice (string t) = refl
normalize_request-twice (array vs) = refl
normalize_request-twice (object request) = request_fields-twice request
