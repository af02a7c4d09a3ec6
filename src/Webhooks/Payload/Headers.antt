-- ===== src/Webhooks/Payload/Headers.antt =====
-- app/webhooks/dispatcher.py: the headers of a delivery.
use local_image_generator_se.Common.{
  ◌≡◌, ap, true, false, List, [], ◌∷◌, arith, In, Bool-cases, ◌⊎◌, inl, inr, ◌↔◌,
}
use local_image_generator_se.Common.Text.{Text, text_eq, text_eq_iff}
use local_image_generator_se.Webhooks.Payload.{put_header, is_reserved, add_headers}

put_header-out :
    (k v : Text) (hs : List (Text × Text)) (h : Text × Text)
    → In h (put_header k v hs)
    → (h ≡ (k, v)) ⊎ In h hs
unfolding put_header
put_header-out k v [] h (inl e) = inl e
put_header-out k v [] h (inr i) = absurd i
put_header-out k v ((j, w) ∷ hs) h i = elim (Bool-cases (text_eq j k)) [
  | inl t ↦ elim (rw t at i) [ inl e ↦ inl e | inr r ↦ inr (inr r) ]
  | inr f ↦ elim (rw f at i) [
    | inl e ↦ inr (inl e)
    | inr r ↦ ground (arith, put_header-out k v hs h r)
  ]
]

put_header-into :
    (k v : Text) (hs : List (Text × Text)) (h : Text × Text)
    → is_reserved h.0 ≡ true
    → is_reserved k ≡ false
    → In h hs
    → In h (put_header k v hs)
unfolding put_header
put_header-into k v [] h r s i = absurd i
put_header-into k v ((j, w) ∷ hs) h r s i = elim (Bool-cases (text_eq j k)) [
  | inr f ↦ rw f (elim i [ inl e ↦ inl e | inr t ↦ inr (put_header-into k v hs h r s t) ])
  | inl t ↦ rw t (elim i [
    | inl e ↦
        let same : j ≡ k = (text_eq_iff j k).0 t in
        let key : h.0 ≡ j = ap (λ (x : Text × Text). x.0) e in
        absurd (ground (arith, r, s, same, key))
    | inr q ↦ inr q
  ])
]

-- Among the headers of a delivery, those with a reserved name are exactly the service's own with a
-- reserved name, whatever headers the caller gave.
pub add_headers-reserved :
    (headers callers : List (Text × Text)) (h : Text × Text)
    → is_reserved h.0 ≡ true
    → In h (add_headers headers callers) ↔ In h headers
unfolding add_headers
add_headers-reserved headers [] h r = ((λ i. i), (λ i. i))
add_headers-reserved headers ((k, v) ∷ rest) h r = elim (Bool-cases (is_reserved k)) [
  | inl t ↦ rw t (add_headers-reserved headers rest h r)
  | inr f ↦
      let ih = add_headers-reserved (put_header k v headers) rest h r in
      rw f (
        λ i. elim (put_header-out k v headers h (ih.0 i)) [
          | inl e ↦
              let key : h.0 ≡ k = ap (λ (x : Text × Text). x.0) e in
              absurd (ground (arith, r, f, key))
          | inr j ↦ j
        ],
        λ i. ih.1 (put_header-into k v headers h r f i),
      )
]
