-- ===== src/Http.antt =====
-- src/infra/http.rs but for the pool of agents: what is read of a response, and the errors of a
-- request. What ureq gives for a request is a parameter, and so is the lossy decoding of bytes.
pub mod Capped
pub mod Tests
use pg_ask.Prelude.{
  ℕ, ◌-◌, ◌==◌, ◌&&◌, Bool, true, false, Option, none, some, List, [], ◌∷◌, ◌++◌, ltb, leb,
  if◌then◌else◌, length, take, Text,
}
use pg_ask.Checked.{Checked, pass, fail}
use pg_ask.Errors.{AskError, provider_http, transport, Result, ok, err}

-- What a read of the body gives, one byte or more, or a failure; behind the last one there is no
-- byte left.
pub data Read : Type 0 where
  chunk : Text → Read
  broken : Read

-- `read_capped`, on its buffer and the reads that are left
unfoldable pub read_capped : ℕ → Text → List Read → Text
read_capped max buf [] = buf
read_capped max buf (broken ∷ reads) = buf
read_capped max buf (chunk c ∷ reads) =
    let room = max - length buf in
    let rest = read_capped max (buf ++ take room c) reads in
    if room == 0 then buf else if ltb room (length c) then buf ++ take room c else rest

pub record Response : Type 0 where
  pub status : ℕ
  pub location : Option Text
  pub body : List Read

-- What ureq gives for a request: a response, an error with a status, or another error.
pub data Answer : Type 0 where
  responds : Response → Answer
  status_code : ℕ → Answer
  fails : Text → Answer

module _ (lossy : Text → Text) (max_body_bytes : ℕ) where
  abbrev pub body_text : Response → Text
  body_text resp = lossy (read_capped max_body_bytes [] resp.body)

  abbrev pub Extracted : Type 0
  Extracted = ℕ × Text × Option Text

  unfoldable pub extract_status_body_location : Response → Extracted
  unfolding read_capped
  extract_status_body_location resp = (resp.status, body_text resp, resp.location)

  -- The texts are those that ureq prints for its errors.
  abbrev pub fetched : (ℕ → Text) → Answer → Result Extracted
  fetched status_text (responds resp) = ok (extract_status_body_location resp)
  fetched status_text (status_code status) = err (transport (status_text status))
  fetched status_text (fails e) = err (transport e)

  abbrev pub parsed : {T : Type 0} → Checked T → Result T
  parsed (pass t) = ok t
  parsed (fail e) = err (transport e)

  abbrev pub within_200 : ℕ → Bool
  within_200 status = leb 200 status && ltb status 300

  unfoldable pub posted : {T : Type 0} → (Text → Checked T) → Answer → Result T
  unfolding read_capped
  posted from_str (responds resp) =
      if within_200 resp.status
      then parsed (from_str (body_text resp))
      else err (provider_http resp.status (body_text resp))
  posted from_str (status_code status) = err (provider_http status [])
  posted from_str (fails e) = err (transport e)
