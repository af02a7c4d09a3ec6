-- ===== src/Webhooks/Dispatcher/Signed.antt =====
-- app/webhooks/dispatcher.py and signing.py: what a delivery posts, and its signature.
use local_image_generator_se.Common.{
  ◌≡◌, refl, ap, String, true, ◌++◌, In, inl, inr, Bool-cases, if◌then◌else◌, List, [], ◌∷◌,
}
use local_image_generator_se.Common.Text.{Text, codes, text_eq, text_eq_iff, starts_with}
use local_image_generator_se.Schema.{Job}
use local_image_generator_se.Webhooks.Payload.{
  is_reserved, own_headers, sign_payload, build_signature_header,
}
use local_image_generator_se.Webhooks.Payload.Headers.{add_headers-reserved}
use local_image_generator_se.Webhooks.Dispatcher.{World, Post, request, seconds}

-- The header that signs a body at a time under a secret.
abbrev signature_of : World → Text → Text → Text
signature_of w secret body =
    let t = w.codec.digits (seconds (w.clock 2)) in
    codes "t=" ++ (t ++ (codes ",v1=" ++ w.codec.hmac_hex secret ((t ++ codes ".") ++ body)))

-- The request goes to the URL, it names the job and no other one, and it has exactly one signature, of the body that
-- it carries and the time that it tells.
abbrev pub IsSigned : World → Job → String → Text → Post → Type 0
IsSigned w job url secret p =
    (p.url ≡ url)
    × In (codes "X-ImageGen-Timestamp", w.codec.digits (seconds (w.clock 2))) p.headers
    × In (codes "X-ImageGen-Job-Id", codes job.id) p.headers
    × ((id : Text) → In (codes "X-ImageGen-Job-Id", id) p.headers → id ≡ codes job.id)
    × In (codes "X-ImageGen-Signature", signature_of w secret p.body) p.headers
    × ((s : Text)
        → In (codes "X-ImageGen-Signature", s) p.headers
        → s ≡ signature_of w secret p.body)

-- The values that a name has in a list of headers.
values_of : Text → List (Text × Text) → List Text
values_of j [] = []
values_of j ((k, v) ∷ hs) = if text_eq j k then v ∷ values_of j hs else values_of j hs

values_of-In : (j u : Text) (hs : List (Text × Text)) → In (j, u) hs → In u (values_of j hs)
unfolding values_of
values_of-In j u [] i = absurd i
values_of-In j u ((k, v) ∷ hs) (inl e) =
    let same : text_eq j k ≡ true = (text_eq_iff j k).1 (ap (λ (x : Text × Text). x.0) e) in
    rw same (inl (ap (λ (x : Text × Text). x.1) e))
values_of-In j u ((k, v) ∷ hs) (inr i) = elim (Bool-cases (text_eq j k)) [
  | inl t ↦ rw t (inr (values_of-In j u hs i))
  | inr f ↦ rw f (values_of-In j u hs i)
]

-- The service's own headers have one signature, and name one job.
own_headers-signature :
    (event job_id delivery_id timestamp signature s : Text)
    → In
        (codes "X-ImageGen-Signature", s)
        (own_headers event job_id delivery_id timestamp signature)
    → s ≡ signature
unfolding own_headers text_eq values_of
own_headers-signature event job_id delivery_id timestamp signature s i =
    let own = own_headers event job_id delivery_id timestamp signature in
    let one : In s (signature ∷ []) = values_of-In (codes "X-ImageGen-Signature") s own i in
    elim one [ inl e ↦ e | inr b ↦ absurd b ]

own_headers-job_id :
    (event job_id delivery_id timestamp signature s : Text)
    → In (codes "X-ImageGen-Job-Id", s) (own_headers event job_id delivery_id timestamp signature)
    → s ≡ job_id
unfolding own_headers text_eq values_of
own_headers-job_id event job_id delivery_id timestamp signature s i =
    let own = own_headers event job_id delivery_id timestamp signature in
    let one : In s (job_id ∷ []) = values_of-In (codes "X-ImageGen-Job-Id") s own i in
    elim one [ inl e ↦ e | inr b ↦ absurd b ]

pub request-IsSigned :
    (w : World) (job : Job) (url : String) (secret : Text)
    → IsSigned w job url secret (request w job url secret)
unfolding request own_headers sign_payload build_signature_header is_reserved starts_with
request-IsSigned w job url secret = (
  refl,
  (add_headers-reserved _ _ (codes "X-ImageGen-Timestamp", _) refl).1
      (inr (inr (inr (inr (inr (inl refl)))))),
  (add_headers-reserved _ _ (codes "X-ImageGen-Job-Id", _) refl).1 (inr (inr (inr (inl refl)))),
  λ id i.
      own_headers-job_id _ _ _ _ _ id
        ((add_headers-reserved _ _ (codes "X-ImageGen-Job-Id", id) refl).0 i),
  (add_headers-reserved _ _ (codes "X-ImageGen-Signature", _) refl).1
      (inr (inr (inr (inr (inr (inr (inl refl))))))),
  λ s i.
      own_headers-signature _ _ _ _ _ s
        ((add_headers-reserved _ _ (codes "X-ImageGen-Signature", s) refl).0 i),
)
