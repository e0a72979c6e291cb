-- ===== src/Listings/Images.antt =====
-- What images a listing can get.
use text.Mathlib.Text.{starts_with}
use nestjs_learn.Prelude.{
  suc, ◌≡◌, ◌≤◌, refl, sym, subst, true, Option, some, List, [], ◌∷◌, String, arith, Option-cases,
  Bool-cases, inl, inr, length, ltb, All,
}
use nestjs_learn.Text.{trim}
use nestjs_learn.World.{Result, ok, err}
use nestjs_learn.Listings.Types.{
  ListingImageInput, plain_url, image_object, malformed, NormalizedImage,
}
use nestjs_learn.Listings.Input.{
  map_result, then_result, ensure_valid_url, normalize_image, normalize_image_inputs,
}

module _ (parse_url : String → Option String) where
  -- A text that the constructor `URL` accepts, with a protocol that begins with `http`.
  abbrev pub HasHttp : String → Type 0
  HasHttp url =
      (protocol : String) × (parse_url url ≡ some protocol) × (starts_with protocol "http" ≡ true)

  ensure_valid_url-HasHttp :
      (value url : String) → ensure_valid_url parse_url value ≡ ok url → HasHttp url
  unfolding ensure_valid_url
  ensure_valid_url-HasHttp value url e = elim (Option-cases (parse_url (trim value))) [
    | inl failed ↦ absurd (ground arith)
    | inr (protocol, parsed) ↦ elim (Bool-cases (starts_with protocol "http")) [
      | inl http ↦
          let same : trim value ≡ url = ground arith in
          (protocol, subst (λ (s : String). parse_url s ≡ some protocol) same parsed, http)
      | inr other ↦ absurd (ground arith)
    ]
  ]

  normalize_image-HasHttp :
      (input : ListingImageInput) (image : NormalizedImage)
      → normalize_image parse_url input ≡ ok image
      → HasHttp image.url
  unfolding normalize_image
  normalize_image-HasHttp (plain_url url) image e =
      ensure_valid_url-HasHttp url image.url (ground arith)
  normalize_image-HasHttp (image_object url public_id) image e =
      ensure_valid_url-HasHttp url image.url (ground arith)
  normalize_image-HasHttp malformed image e = absurd (ground arith)

  normalized-All :
      (inputs : List ListingImageInput) (images : List NormalizedImage)
      → map_result (normalize_image parse_url) inputs ≡ ok images
      → (length images ≡ length inputs) × All (λ i. HasHttp i.url) images
  normalized-All [] images e = let same : [] ≡ images = ground arith in rw (sym same) (refl, tt)
  normalized-All (input ∷ rest) images e =
      split (λ others k. normalized-All rest others k) (normalize_image parse_url input) refl
        (map_result (normalize_image parse_url) rest) refl e
    where
      split :
          ((others : List NormalizedImage)
            → map_result (normalize_image parse_url) rest ≡ ok others
            → (length others ≡ length rest) × All (λ i. HasHttp i.url) others)
          → (r : Result NormalizedImage) → normalize_image parse_url input ≡ r
          → (rs : Result (List NormalizedImage)) → map_result (normalize_image parse_url) rest ≡ rs
          → then_result r (λ b. then_result rs (λ bs. ok (b ∷ bs))) ≡ ok images
          → (length images ≡ suc (length rest)) × All (λ i. HasHttp i.url) images
      split later (err x) h rs k e = absurd (ground arith)
      split later (ok image) h (err x) k e = absurd (ground arith)
      split later (ok image) h (ok others) k e =
          let (same_length, all) = later others k in
          let same : image ∷ others ≡ images = ground arith in
          subst
            (λ (is : List NormalizedImage).
              (length is ≡ suc (length rest)) × All (λ i. HasHttp i.url) is)
            same (rw same_length refl, (normalize_image-HasHttp input image h, all))

  -- The images that the service takes from a request are as many as the request has, five at most,
  -- and each has a URL that parses, with a protocol that begins with `http`.
  pub normalize_image_inputs-HasHttp :
      (inputs : List ListingImageInput) (images : List NormalizedImage)
      → normalize_image_inputs parse_url (some inputs) ≡ ok images
      → (length images ≡ length inputs) × (length images ≤ 5) × All (λ i. HasHttp i.url) images
  unfolding normalize_image_inputs
  normalize_image_inputs-HasHttp inputs images e = elim (Bool-cases (ltb 5 (length inputs))) [
    | inl many ↦ absurd (ground arith)
    | inr few ↦
        let (same, all) = normalized-All inputs images (ground arith) in (same, ground arith, all)
  ]
