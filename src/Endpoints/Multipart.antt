-- ===== src/Endpoints/Multipart.antt =====
-- internal/gateway/audio.go: the `model` field of a multipart form. mime and mime/multipart are parameters.
use costguard.Base.{
  ℕ, String, List, [], ◌∷◌, Option, none, some, str_eq, if◌then◌else◌, Result, ok, err, and_then,
  Dict, map,
}
use costguard.Gateway.Errors.{GoError, plain_error}
use costguard.Base.{runes}

pub record FormPart : Type 0 where
  pub form_name : String
  pub header : Dict (List String)
  pub content : List ℕ

-- What is written into a form: `WriteField`, or `CreatePart` and the content.
pub data Written : Type 0 where
  form_field : String → String → Written
  created : Dict (List String) → List ℕ → Written

-- `mime.ParseMediaType` with the parameter `boundary`, the parts that a reader gives with the error that
-- ends them, if that is not io.EOF, the writer with its content type, and `string(v)`.
pub record Forms : Type 0 where
  pub boundary_of : String → Result GoError (Option String)
  pub parts_of : String → List ℕ → List FormPart × Option GoError
  pub write : List Written → List ℕ × String
  pub text_of : List ℕ → String

module _ (forms : Forms) where
  abbrev pub model_part : List FormPart → String
  model_part [] = ""
  model_part (p ∷ ps) =
      let rest = model_part ps in
      if str_eq p.form_name "model" then forms.text_of p.content else rest

  unfoldable pub extract_model_from_multipart : String → List ℕ → String
  extract_model_from_multipart content_type body = elim (forms.boundary_of content_type) [
    | err e ↦ ""
    | ok found ↦ elim found [
      | none ↦ ""
      | some boundary ↦ model_part (forms.parts_of boundary body).0
    ]
  ]

  abbrev pub rewritten_part : String → FormPart → Written
  rewritten_part new_model p =
      if str_eq p.form_name "model"
      then form_field "model" new_model
      else created p.header p.content

  -- The body and its content type, or the error for which the caller keeps both as they are.
  unfoldable pub rewrite_multipart_model :
      String → List ℕ → String → Result GoError (List ℕ × String)
  rewrite_multipart_model content_type body new_model =
      and_then (forms.boundary_of content_type) (λ found. elim found [
        | none ↦ err (plain_error (runes "no boundary"))
        | some boundary ↦
            let (parts, failed) = forms.parts_of boundary body in
            elim failed [
              | some e ↦ err e
              | none ↦ ok (forms.write (map (rewritten_part new_model) parts))
            ]
      ])
