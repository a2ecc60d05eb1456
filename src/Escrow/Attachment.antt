-- ===== src/Escrow/Attachment.antt =====
-- The evidence that a dispute may carry: the checks of `dispute` on an uploaded image, and
-- `uploadDisputeAttachment`. Node's URL and Buffer and the Cloudinary service are parameters.
use farm_backend.Prelude.{
  ℕ, ◌*◌, Bool, true, false, not, Option, none, some, List, [], ◌∷◌, ◌&&◌, ◌||◌, ◌==◌, ltb, leb,
  any, if◌then◌else◌,
}
use farm_backend.Prelude.Text.{Text, codes, text_eq, is_empty}
use farm_backend.Store.{Action, bad_request, internal, pure, or_raise, raise_if, ◌>>=◌, ◌>>◌}

pub record Url : Type 0 where
  pub protocol : Text
  pub hostname : Text
  pub in_image_upload : Bool  -- `pathname.includes('/image/upload/')`

pub record Media : Type 0 where
  pub parse_url : Text → Option Url
  pub decoded_length : Text → ℕ
  pub reencoded : Text → Text
  pub is_configured : Bool
  pub upload : Text → Text → ℕ → Option Text

pub record Attachment : Type 0 where
  pub base64 : Text
  pub mime_type : Text
  pub url : Text

abbrev image_types : List Text
image_types = codes "image/jpeg" ∷ codes "image/png" ∷ codes "image/webp" ∷ []

abbrev media_types : List Text
media_types =
    codes "image/jpeg"
    ∷ codes "image/png"
    ∷ codes "image/webp"
    ∷ codes "image/gif"
    ∷ codes "image/heic"
    ∷ codes "image/heif"
    ∷ codes "video/mp4"
    ∷ codes "video/quicktime"
    ∷ codes "video/webm"
    ∷ codes "video/x-m4v"
    ∷ []

-- A field that is missing is the empty text: the code tests `Boolean(field)`.
unfoldable pub is_inconsistent : Attachment → Bool
is_inconsistent a =
    if not (is_empty a.url)
    then not (is_empty a.base64)
    else not (is_empty a.base64) && is_empty a.mime_type
      || is_empty a.base64 && not (is_empty a.mime_type)

abbrev pub is_hosted_image : Text → Option Url → Bool
is_hosted_image mime none = false
is_hosted_image mime (some u) =
    any (text_eq mime) image_types
    && text_eq u.protocol (codes "https:")
    && text_eq u.hostname (codes "res.cloudinary.com")
    && u.in_image_upload

unfoldable pub is_bad_url : Media → Attachment → Bool
is_bad_url media a =
    not (is_empty a.url) && not (is_hosted_image a.mime_type (media.parse_url a.url))

abbrev is_base64_char : ℕ → Bool
is_base64_char c =
    leb b'A' c && leb c b'Z'
    || leb b'a' c && leb c b'z'
    || leb b'0' c && leb c b'9'
    || c == b'+'
    || c == b'/'

-- `/^(?:[A-Za-z0-9+/]{4})*(?:[A-Za-z0-9+/]{2}==|[A-Za-z0-9+/]{3}=)?$/`
unfoldable pub is_base64 : Text → Bool
is_base64 [] = true
is_base64 (a ∷ b ∷ c ∷ d ∷ s) =
    let rest = is_base64 s in
    if is_empty s && d == b'='
    then is_base64_char a && is_base64_char b && (is_base64_char c || c == b'=')
    else is_base64_char a && is_base64_char b && is_base64_char c && is_base64_char d && rest
is_base64 _ = false

abbrev max_attachment_bytes : ℕ
max_attachment_bytes = 20 * 1024 * 1024

unfoldable pub upload_attachment : Media → ℕ → Text → Text → Action Text
unfolding is_base64
upload_attachment media id mime base64 = do
  raise_if (not (any (text_eq mime) media_types))
      (bad_request "Only photos and videos are supported")
  raise_if (not (is_base64 base64)) (bad_request "Invalid attachment data")
  raise_if
      (media.decoded_length base64 == 0
        || ltb max_attachment_bytes (media.decoded_length base64)
        || not (text_eq (media.reencoded base64) base64))
      (bad_request "Attachments must be smaller than 20 MB")
  raise_if (not media.is_configured) (internal "Escrow evidence storage is not configured")
  or_raise (internal "Upload failed") (media.upload mime base64 id)

-- The URL under which the evidence is stored, if there is any.
unfoldable pub stored_url : Media → ℕ → Attachment → Action (Option Text)
unfolding upload_attachment
stored_url media id a =
    if not (is_empty a.url)
    then pure (some a.url)
    else if is_empty a.base64
    then pure none
    else (upload_attachment media id a.mime_type a.base64 >>= λ url. pure (some url))
