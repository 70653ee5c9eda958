-- ===== src/Store/Requests.antt =====
-- go/internal/store/access.go: requests for access, and their review.
pub mod Pending
use Prim.Native.String.{◌++◌}
use mlops.Base.{
  String, Bool, List, [], ◌∷◌, none, some, ◌==◌, ◌&&◌, not, any, is_nil, ltb, if◌then◌else◌,
}
use mlops.Base.First.{find_first, update_first}
use mlops.Base.Text.{trim_space, byte_length}
use mlops.Api.Value.{Time}
use mlops.Api.Access.{AccessRequest, CreateAccessRequest, ReviewAccessRequest}
use mlops.Store.{
  State, Outcome, refused, returned, not_found, message, unknown_service, Clock, id, record_event,
}
use mlops.Store.Access.{unique, unknown_of}

-- `validateAccessRequest`
unfoldable pub validate_access_request : CreateAccessRequest → Outcome CreateAccessRequest
validate_access_request req =
    let reason = trim_space req.reason in
    let services = unique req.requested_services in
    if ltb (byte_length reason) 10
    then refused (message "reason must contain at least 10 characters")
    else if is_nil services
    then refused (message "at least one service is required")
    else elim (unknown_of services) [
      | some service ↦ refused (unknown_service service)
      | none ↦ returned (record { reason = reason; requested_services = services })
    ]

-- A pending request of a subject.
abbrev pub is_pending_of : String → AccessRequest → Bool
is_pending_of subject request = request.subject == subject && request.status == "pending"

-- The request that `CreateAccessRequest` makes.
unfoldable pub requested : Clock → String → String → CreateAccessRequest → AccessRequest
requested clock subject email req = record {
  id = id "access-request" (clock 1);
  subject = subject;
  email = email;
  reason = req.reason;
  requested_services = req.requested_services;
  status = "pending";
  reviewer = "";
  review_note = "";
  created_at = clock 0;
  updated_at = clock 0;
}

-- `CreateAccessRequest`
unfoldable pub create_access_request :
    Clock → String → String → CreateAccessRequest → State → State × Outcome AccessRequest
create_access_request clock subject email req s = elim (validate_access_request req) [
  | refused e ↦ (s, refused e)
  | returned valid ↦
      if any (is_pending_of subject) s.access_requests
      then (s, refused (message "a pending access request already exists"))
      else let request = requested clock subject email valid in
        (
          record_event (clock 2) (clock 3) "access.requested" "access_request" request.id subject []
              (record s { access_requests = request ∷ s.access_requests }),
          returned request,
        )
]

abbrev pub is_request : String → AccessRequest → Bool
is_request request_id request = request.id == request_id

-- What `ReviewAccessRequest` does to the request that it finds.
unfoldable pub review : Time → ReviewAccessRequest → String → AccessRequest → AccessRequest
review now req reviewer request = record request {
  status = req.status;
  reviewer = reviewer;
  review_note = trim_space req.note;
  updated_at = now;
}

-- `ReviewAccessRequest`
unfoldable pub review_access_request :
    Clock → String → ReviewAccessRequest → String → State → State × Outcome AccessRequest
review_access_request clock request_id req reviewer s =
    if not (req.status == "approved") && not (req.status == "rejected")
    then (s, refused (message "status must be approved or rejected"))
    else elim (find_first (is_request request_id) s.access_requests) [
      | none ↦ (s, refused not_found)
      | some found ↦
          if not (found.status == "pending")
          then (s, refused (message "access request has already been reviewed"))
          else let change = review (clock 0) req reviewer in
            (
              record_event (clock 1) (clock 2) ("access.request_" ++ req.status) "access_request"
                  request_id reviewer []
                  (record s {
                    access_requests = update_first (is_request request_id) change s.access_requests;
                  }),
              returned (change found),
            )
    ]
