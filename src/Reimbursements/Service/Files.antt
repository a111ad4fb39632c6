-- ===== src/Reimbursements/Service/Files.antt =====
-- backend/internal/modules/reimbursements/attachments.go: receipts, their names and their links.
use reimbursement_system.Base.{
  ℕ, zero, suc, ◌-◌, Bool, true, false, ◌&&◌, ◌||◌, not, Option, none, some, [], ◌∷◌, ◌++◌, ltb,
  leb, ◌==◌, if◌then◌else◌, is_empty, length, drop, find?, Text, lit,
}
use reimbursement_system.Approval.{Status, draft, submitted, rejected, Role}
use reimbursement_system.AppErr.{forbidden, not_found, conflict, internal_err}
use reimbursement_system.Store.{
  Reimbursement, AttachmentRow, Db, Env, M, pure, ◌>>=◌, ◌>>◌, throw_if, map_err, ask, first,
  new_uuid, call,
}
use reimbursement_system.Reimbursements.Scope.{DetailRow, can_see}
use reimbursement_system.Reimbursements.Repository.{get_detail, not_found_as}
use reimbursement_system.Reimbursements.Repository.Writes.{create_attachment}
use reimbursement_system.Reimbursements.Repository.Detail.{AttachmentResponse, attachment_response}

abbrev pub is_separator : ℕ → Bool
is_separator c = c == b'/' || c == 0x5C

abbrev pub has_separator : Text → Bool
has_separator [] = false
has_separator (c ∷ s) = is_separator c || has_separator s

-- What follows the last separator.
abbrev pub base_name : Text → Text
base_name [] = []
base_name (c ∷ s) = if has_separator s then base_name s else if is_separator c then s else c ∷ s

abbrev continues : Text → Bool
continues [] = false
continues (c ∷ s) = leb 0x80 c && leb c 0xBF

abbrev pub continues2 : Text → Bool
continues2 [] = false
continues2 (c ∷ s) = leb 0x80 c && (leb c 0xBF && continues s)

unfoldable pub second : ℕ → ℕ → Text → Bool
second lo hi [] = false
second lo hi (c ∷ s) = leb lo c && leb c hi

unfoldable pub third : ℕ → ℕ → Text → Bool
third lo hi [] = false
third lo hi (c ∷ s) = leb lo c && (leb c hi && continues s)

unfoldable pub fourth : ℕ → ℕ → Text → Bool
fourth lo hi [] = false
fourth lo hi (c ∷ s) = leb lo c && (leb c hi && continues2 s)

abbrev pub three_bytes : ℕ → Text → Bool
three_bytes c s =
    (c == 0xE0 && third 0xA0 0xBF s)
    || ((c == 0xED && third 0x80 0x9F s)
        || (leb 0xE1 c && (leb c 0xEF && (not (c == 0xED) && third 0x80 0xBF s))))

abbrev pub four_bytes : ℕ → Text → Bool
four_bytes c s =
    (c == 0xF0 && fourth 0x90 0xBF s)
    || ((c == 0xF4 && fourth 0x80 0x8F s) || (leb 0xF1 c && (leb c 0xF3 && fourth 0x80 0xBF s)))

-- The bytes of the rune that begins with c, less one; none for an invalid byte.
unfoldable pub rune_rest : ℕ → Text → Option ℕ
rune_rest c s =
    if ltb c 0x80
    then some 0
    else if leb 0xC2 c && (leb c 0xDF && second 0x80 0xBF s)
    then some 1
    else if three_bytes c s
    then some 2
    else if four_bytes c s
    then some 3
    else none

-- The strings.Map: control characters are dropped, and an invalid byte becomes U+FFFD; the number
-- says how many bytes of the current rune are left to copy.
unfoldable pub drop_controls : ℕ → Text → Text
drop_controls n [] = []
drop_controls (suc n) (c ∷ s) = let rest = drop_controls n s in c ∷ rest
drop_controls zero (c ∷ s) =
    let rest = λ (k : ℕ). drop_controls k s in
    elim (rune_rest c s) [
      | none ↦ 0xEF ∷ 0xBF ∷ 0xBD ∷ rest 0
      | some k ↦ if ltb c 32 then rest 0 else c ∷ rest k
    ]

abbrev pub or_receipt : Text → Text
or_receipt s = if is_empty s then lit "receipt" else s

abbrev pub last_255 : Text → Text
last_255 s = if ltb 255 (length s) then drop (length s - 255) s else s

-- sanitizeFilename
unfoldable pub sanitize_filename : Text → Text
sanitize_filename name = last_255 (or_receipt (drop_controls 0 (base_name name)))

abbrev pub takes_files : Status → Bool
takes_files draft = true
takes_files rejected = true
takes_files submitted = true
takes_files _ = false

-- The claim that a receipt may be attached to.
unfoldable pub read_open : ℕ → Role → ℕ → M DetailRow
read_open id role user_id = do
  current ← get_detail id role user_id
  throw_if (not (current.claim.employee_id == user_id))
      (forbidden (lit "Only the owner can attach receipts"))
  throw_if (not (takes_files current.claim.status))
      (conflict (lit "Claim is already decided; no further uploads"))
  pure current

abbrev pub attachment_row : Env → ℕ → ℕ → ℕ → Text → Text → Text → Text → AttachmentRow
attachment_row e id claim_id user_id key filename content mime = record {
  id = id;
  reimbursement_id = claim_id;
  uploaded_by = user_id;
  storage_key = key;
  original_filename = sanitize_filename filename;
  mime_type = mime;
  size_bytes = length content;
  created_at = e.now;
}

-- AddAttachment: the object is stored first, its row second.
unfoldable pub add_attachment : ℕ → Role → ℕ → Text → Text → Text → M AttachmentResponse
add_attachment claim_id role user_id filename content mime = do
  current ← read_open claim_id role user_id
  object ← new_uuid
  key ← ask (λ e. lit "receipts/" ++ (e.id_text claim_id ++ (lit "/" ++ e.id_text object)))
  map_err internal_err (call tt)
  id ← new_uuid
  row ← ask (λ e. attachment_row e id claim_id user_id key filename content mime)
  map_err internal_err (create_attachment row)
  ask (λ e. attachment_response e row)

-- Repository.GetAttachment: the row with the owner of its claim, deleted or not.
abbrev pub attachment_owner : ℕ → Db → Option (AttachmentRow × ℕ)
attachment_owner id db = elim (find? (λ (a : AttachmentRow). a.id == id) db.attachments) [
  | none ↦ none
  | some a ↦ elim (find? (λ (r : Reimbursement). r.id == a.reimbursement_id) db.reimbursements) [
    | none ↦ none
    | some r ↦ some (a, r.employee_id)
  ]
]

unfoldable pub get_attachment : ℕ → M (AttachmentRow × ℕ)
get_attachment id =
    map_err (not_found_as (lit "Attachment not found")) (first (attachment_owner id))

-- DownloadURL
unfoldable pub download_url : ℕ → Role → ℕ → M Text
download_url id role user_id = do
  (att, employee_id) ← get_attachment id
  throw_if (not (can_see role user_id employee_id)) (not_found (lit "Attachment not found"))
  url ← ask (λ e. e.presign att.storage_key)
  map_err internal_err (call url)
