-- ===== src/Upstream/Calls/DataUrl.antt =====
-- Reference images that are no data URL.
use shadraw.Base.{
  ℕ, suc, ◌≡◌, refl, ◌∙◌, inl, inr, String, false, List, [], ◌∷◌, Result, err, Result-cases, Elem,
  eq_iff,
}
use shadraw.Upstream.{
  Error, Config, GenerateParams, bad_request, images_api_model, is_unset, normalized, generate,
}
use shadraw.Upstream.Calls.{
  Request, Response, Net, decode_data_url, reference_part, reference_parts, call_images_edits,
  call_images, transport, normalize_base_url, with_references,
}

-- The network in place of another one.
abbrev pub sending : Net → (Request → Result String Response) → Net
sending net send = record net { send = send }

-- The same error, whatever the network does.
abbrev pub Refused : {A : Type 0} → Net → (Net → Result Error A) → Type 0
Refused net run =
    (e : Error) × (e.kind ≡ bad_request)
    × ((send : Request → Result String Response) → run (sending net send) ≡ err e)

with_references-Elem :
    {A : Type 0} (url : String) (urls : List String) (edits generations : A)
    → Elem url urls
    → with_references urls edits generations ≡ edits
with_references-Elem url [] edits generations m = absurd m
with_references-Elem url (_ ∷ _) edits generations m = refl

module _ (net : Net) where
  reference_parts-Refused :
      (i : ℕ) (urls : List String) (url text : String)
      → Elem url urls
      → decode_data_url net.codec url ≡ err text
      → Refused net (λ n. reference_parts n i urls)
  unfolding reference_parts reference_part
  reference_parts-Refused i [] url text m h = absurd m
  reference_parts-Refused i (u ∷ urls) url text m h =
      elim (Result-cases (decode_data_url net.codec u)) [
        | inr (other, e) ↦ rw e (_, refl, (λ send. refl))
        | inl (image, e) ↦ elim m [
          | inl same ↦ absurd (cc (same, e, h))
          | inr later ↦
              let (failure, kind, fails) = reference_parts-Refused (suc i) urls url text later h in
              rw e (failure, kind, (λ send. rw (fails send) refl))
        ]
      ]

  call_images-Refused :
      (base api_key : String) (p : GenerateParams) (url text : String)
      → Elem url p.reference_images
      → decode_data_url net.codec url ≡ err text
      → Refused net (λ n. call_images n base api_key p)
  unfolding call_images call_images_edits
  call_images-Refused base api_key p url text m h =
      let (failure, kind, fails) = reference_parts-Refused 0 p.reference_images url text m h in
      (
        failure,
        kind,
        (λ send. with_references-Elem url p.reference_images _ _ m ∙ rw (fails send) refl),
      )

-- With the model of the images API, a generation whose reference images contain one that is no
-- data URL fails as a bad request, with the same error whatever the network would answer.
pub generate-Refused :
    (net : Net) (cfg : Config) (p : GenerateParams) (url text : String)
    → is_unset cfg ≡ false
    → p.model ≡ images_api_model
    → Elem url p.reference_images
    → decode_data_url net.codec url ≡ err text
    → Refused net (λ n. generate (transport n) cfg p)
unfolding generate transport
generate-Refused net cfg p url text set model m h =
    let (failure, kind, fails) =
      call_images-Refused net (normalize_base_url net.codec cfg.base_url) cfg.api_key (normalized p)
        url text m h in
    (failure, kind, (λ send. rw (set, (eq_iff p.model images_api_model).1 model, fails send) refl))
