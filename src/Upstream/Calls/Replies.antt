-- ===== src/Upstream/Calls/Replies.antt =====
-- Where the image of a generation comes from.
use Prim.Native.String.{◌++◌ as append}
use shadraw.Base.{
  ℕ, ◌≡◌, refl, ap, ◌∙◌, ◌⊎◌, inl, inr, String, List, [], ◌∷◌, Result, ok, err, ◌==◌, str_eq,
  Bool-cases, Option-cases, Result-cases, Elem, arith,
}
use shadraw.Upstream.{
  Error, Config, GenerateParams, GenerateResult, images_api_model, is_unset, normalized, packed,
  generate,
}
use shadraw.Upstream.Json.{object}
use shadraw.Upstream.Stream.{read_stream}
use shadraw.Upstream.Requests.{generations_body}
use shadraw.Upstream.Calls.{
  Request, Response, Net, json_body, and_then, do_request, expect_ok, image_of_reply,
  reference_parts, normalized_params, bearer, call_images_generations, edits_request,
  call_images_edits, call_images, responses_request, call_responses, transport, with_references,
}

-- A reply with the status 200 to a request with the key, and the image that it holds.
abbrev pub Drawn : Net → String → List ℕ → Type 0
Drawn net api_key image =
    (req : Request) × (resp : Response) × (net.send req ≡ ok resp)
    × Elem (bearer api_key) req.headers
    × (resp.status ≡ 200)
    × ((image_of_reply net resp ≡ ok image) ⊎ (read_stream net.codec resp.stream ≡ ok image))

and_then-ok :
    {A B : Type 0} (r : Result Error A) (k : A → Result Error B) (b : B)
    → and_then r k ≡ ok b
    → (a : A) × (r ≡ ok a) × (k a ≡ ok b)
and_then-ok (ok a) k b h = (a, refl, h)
and_then-ok (err e) k b h = cc

expect_ok-ok :
    (net : Net) (resp checked : Response)
    → expect_ok net resp ≡ ok checked
    → (resp ≡ checked) × (resp.status ≡ 200)
expect_ok-ok net resp checked = elim (Bool-cases (resp.status == 200)) [
  | inl e ↦ rw e (λ h. (cc, ground arith))
  | inr e ↦ rw e (λ h. cc)
]

do_request-ok :
    (net : Net) (req : Request) (resp : Response)
    → do_request net req ≡ ok resp
    → net.send req ≡ ok resp
unfolding do_request
do_request-ok net req resp = elim (Option-cases (net.refuses req.method req.url)) [
  | inr (text, e) ↦ rw e (λ h. cc)
  | inl e ↦ elim (Result-cases (net.send req)) [
    | inl (r, f) ↦ rw (e, f) (λ h. cc)
    | inr (text, f) ↦ rw (e, f) (λ h. cc)
  ]
]

module _ (net : Net) where
  -- A request, the check of its reply, and the image that a reader finds in it.
  reply-Drawn :
      (api_key : String) (req : Request) (read : Response → Result Error (List ℕ)) (image : List ℕ)
      → Elem (bearer api_key) req.headers
      → ((resp : Response)
          → read resp ≡ ok image
          → (image_of_reply net resp ≡ ok image) ⊎ (read_stream net.codec resp.stream ≡ ok image))
      → and_then (do_request net req) (λ resp. and_then (expect_ok net resp) read) ≡ ok image
      → Drawn net api_key image
  reply-Drawn api_key req read image key reads h =
      let (resp, sent, after) = and_then-ok (do_request net req) _ image h in
      let (checked, e, found) = and_then-ok (expect_ok net resp) read image after in
      let (same, good) = expect_ok-ok net resp checked e in
      (req, resp, do_request-ok net req resp sent, key, good, reads resp (ap read same ∙ found))

  call_images_generations-Drawn :
      (base api_key : String) (p : GenerateParams) (image : List ℕ)
      → call_images_generations net base api_key p ≡ ok image
      → Drawn net api_key image
  unfolding call_images_generations
  call_images_generations-Drawn base api_key p image h =
      reply-Drawn api_key
        (record {
          method = "POST";
          url = append base "/v1/images/generations";
          headers = ("Content-Type", "application/json") ∷ bearer api_key ∷ [];
          body = json_body (object (generations_body p (normalized_params p)));
        })
        (image_of_reply net) image (inr (inl refl)) (λ resp found. inl found) h

  call_images_edits-Drawn :
      (base api_key : String) (p : GenerateParams) (image : List ℕ)
      → call_images_edits net base api_key p ≡ ok image
      → Drawn net api_key image
  unfolding call_images_edits
  call_images_edits-Drawn base api_key p image h =
      let (images, _, after) = and_then-ok (reference_parts net 0 p.reference_images) _ image h in
      reply-Drawn api_key (edits_request net base api_key p images) (image_of_reply net) image
        (inr (inl refl)) (λ resp found. inl found) after

  call_images-Drawn :
      (base api_key : String) (p : GenerateParams) (image : List ℕ)
      → call_images net base api_key p ≡ ok image
      → Drawn net api_key image
  unfolding call_images
  call_images-Drawn base api_key p image = by_references p.reference_images
    where
      by_references :
          (urls : List String)
          → with_references urls
              (call_images_edits net base api_key p)
              (call_images_generations net base api_key p)
            ≡ ok image
          → Drawn net api_key image
      by_references [] h = call_images_generations-Drawn base api_key p image h
      by_references (url ∷ urls) h = call_images_edits-Drawn base api_key p image h

  call_responses-Drawn :
      (base api_key : String) (p : GenerateParams) (image : List ℕ)
      → call_responses net base api_key p ≡ ok image
      → Drawn net api_key image
  unfolding call_responses
  call_responses-Drawn base api_key p image h =
      reply-Drawn api_key (responses_request net base api_key p)
        (λ resp. read_stream net.codec resp.stream) image (inr (inl refl)) (λ resp found. inr found)
        h

packed-ok :
    (p : GenerateParams) (out : Result Error (List ℕ)) (r : GenerateResult)
    → packed p out ≡ ok r
    → out ≡ ok r.image
packed-ok p (ok image) r h = cc
packed-ok p (err e) r h = cc

-- A generation gives an image only where the API answered a request that carries the configured key
-- with the status 200, and the image is the one that this reply holds: in its JSON or in its stream
-- of events.
pub generate-Drawn :
    (net : Net) (cfg : Config) (p : GenerateParams) (r : GenerateResult)
    → generate (transport net) cfg p ≡ ok r
    → Drawn net cfg.api_key r.image
unfolding generate transport
generate-Drawn net cfg p r = elim (Bool-cases (is_unset cfg)) [
  | inl e ↦ rw e (λ h. cc)
  | inr e ↦ elim (Bool-cases (str_eq p.model images_api_model)) [
    | inl f ↦
        rw (e, f)
          (λ h.
            call_images-Drawn net _ cfg.api_key (normalized p) r.image
              (packed-ok (normalized p) _ r h))
    | inr f ↦
        rw (e, f)
          (λ h.
            call_responses-Drawn net _ cfg.api_key (normalized p) r.image
              (packed-ok (normalized p) _ r h))
  ]
]
