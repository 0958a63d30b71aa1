-- ===== src/Wms/Http.antt =====
-- amr_warehouse_sim/mock_wms_executor.py, the HTTP task source and `run_http_executor_once`. The
-- requests are given: what they return is a decoded JSON value, of which the shapes that the code
-- tells apart are kept. Coordinates are signed thousandths.
pub mod Run
pub mod Replies
pub mod Goals
use Prim.Native.Char.{code}
use amr_warehouse_navigation.Common.{
  Bool, true, false, not, ◌&&◌, Option, none, some, List, [], ◌∷◌, String, ◌==◌, string_key, ℕ, ◌+◌,
  ◌*◌, if◌then◌else◌, contains, Outcome, returned, raised,
}
use amr_warehouse_navigation.Common.Int.{ℤ, pos, negsuc, leb_ℤ, ltb_ℤ}
use amr_warehouse_navigation.Common.Dict.{Dict, lookup}
use amr_warehouse_navigation.Common.Order.{sort, text_leb}
use amr_warehouse_navigation.Inspection.Models.{is_space, is_blank}
use amr_warehouse_navigation.Wms.Reasons.{WmsReason}
use amr_warehouse_navigation.Wms.Tasks.{task_statuses}

-- `HttpTaskSourceUnavailableError` and `InvalidHttpTaskPayloadError`
pub data HttpFault : Type 0 where
  unavailable invalid : HttpFault

-- A field of a JSON object; `other` is a list or an object.
pub data Field : Type 0 where
  null other : Field
  bool : Bool → Field
  int float : ℤ → Field
  text : String → Field

pub data Payload : Type 0 where
  not_object : Payload
  object : Dict String Field → Payload

-- The reply of /tasks: no object, an object without a list of tasks, or one with it.
pub data TasksReply : Type 0 where
  not_object no_list : TasksReply
  tasks : List Payload → TasksReply

pub record HttpTask : Type 0 where
  pub id : ℤ
  pub task_name : String
  pub target_name : String
  pub x : ℤ
  pub y : ℤ
  pub yaw : ℤ
  pub status : String
  pub status_reason : Option String
  pub created_at : String
  pub updated_at : String

abbrev lstrip : String → String
lstrip String.[] = String.[]
lstrip (String.◌∷◌ c s) = if is_space (code c) then lstrip s else String.◌∷◌ c s

abbrev rstrip : String → String
rstrip String.[] = String.[]
rstrip (String.◌∷◌ c s) = if is_blank (String.◌∷◌ c s) then String.[] else String.◌∷◌ c (rstrip s)

abbrev Read : Type 0 → Type 0
Read A = Outcome HttpFault A

unfoldable pub read_then : {A B : Type 0} → Read A → (A → Read B) → Read B
read_then (returned a) f = f a
read_then (raised e) f = raised e

-- `isinstance(value, int)`, which also holds of a Boolean.
abbrev int_field : Option Field → Read ℤ
int_field (some (Field.int n)) = returned n
int_field (some (Field.bool true)) = returned (pos 1)
int_field (some (Field.bool false)) = returned (pos 0)
int_field _ = raised HttpFault.invalid

-- A text that is not blank, stripped.
abbrev text_field : Option Field → Read String
text_field (some (Field.text s)) =
    if is_blank s then raised HttpFault.invalid else returned (lstrip (rstrip s))
text_field _ = raised HttpFault.invalid

abbrev status_field : Option Field → Read String
status_field (some (Field.text s)) =
    if contains task_statuses s then returned s else raised HttpFault.invalid
status_field _ = raised HttpFault.invalid

abbrev map_frame : Option Field → Read String
map_frame (some (Field.text s)) = if s == "map" then returned s else raised HttpFault.invalid
map_frame _ = raised HttpFault.invalid

abbrev reason_field : Option Field → Read (Option String)
reason_field none = returned none
reason_field (some Field.null) = returned none
reason_field (some (Field.text s)) = returned (some s)
reason_field _ = raised HttpFault.invalid

abbrev thousandfold : ℤ → ℤ
thousandfold (pos n) = pos (n * 1000)
thousandfold (negsuc n) = negsuc (n * 1000 + 999)

abbrev float_field : Option Field → Read ℤ
float_field (some (Field.float n)) = returned n
float_field (some (Field.int n)) = returned (thousandfold n)
float_field (some (Field.bool true)) = returned (pos 1000)
float_field (some (Field.bool false)) = returned (pos 0)
float_field _ = raised HttpFault.invalid

-- `expected_status is not None and raw_status != expected_status`
abbrev pub expect_status : String → String → Read String
expect_status expected status =
    if status == expected then returned status else raised HttpFault.invalid

unfoldable pub coerce_http_task : String → Payload → Read HttpTask
coerce_http_task expected Payload.not_object = raised HttpFault.invalid
coerce_http_task expected (Payload.object o) = read_then (int_field (lookup "id" o)) λ id.
    read_then (text_field (lookup "task_name" o)) λ task_name.
      read_then (text_field (lookup "target_name" o)) λ target_name.
        read_then (status_field (lookup "status" o)) λ raw_status.
          read_then (expect_status expected raw_status) λ status.
            read_then (map_frame (lookup "frame_id" o)) λ frame_id.
              read_then (text_field (lookup "created_at" o)) λ created_at.
                read_then (text_field (lookup "updated_at" o)) λ updated_at.
                  read_then (reason_field (lookup "status_reason" o)) λ status_reason.
                    read_then (float_field (lookup "x" o)) λ x.
                      read_then (float_field (lookup "y" o)) λ y.
                        read_then (float_field (lookup "yaw" o)) λ yaw. returned (record {
                          id = id;
                          task_name = task_name;
                          target_name = target_name;
                          x = x;
                          y = y;
                          yaw = yaw;
                          status = status;
                          status_reason = status_reason;
                          created_at = created_at;
                          updated_at = updated_at;
                        })

-- The pending ones of the tasks; any entry that is no task fails the whole reply.
unfoldable pub pending_tasks : List Payload → Read (List HttpTask)
pending_tasks [] = returned []
pending_tasks (Payload.not_object ∷ rest) = raised HttpFault.invalid
pending_tasks (Payload.object o ∷ rest) = read_then (status_field (lookup "status" o)) λ status.
    if status == "pending"
    then (read_then (coerce_http_task "pending" (Payload.object o))
        λ task. read_then (pending_tasks rest) λ tasks. returned (task ∷ tasks))
    else pending_tasks rest

-- `(str(task['created_at']), int(task['id']))`
abbrev http_leb : HttpTask → HttpTask → Bool
http_leb a b =
    if not (text_leb b.created_at a.created_at)
    then true
    else if not (text_leb a.created_at b.created_at)
    then false
    else leb_ℤ a.id b.id

abbrev first_task : List HttpTask → Option HttpTask
first_task [] = none
first_task (t ∷ _) = some t

abbrev next_of_reply : TasksReply → Read (Option HttpTask)
next_of_reply TasksReply.not_object = raised HttpFault.invalid
next_of_reply TasksReply.no_list = raised HttpFault.invalid
next_of_reply (TasksReply.tasks ts) =
    read_then (pending_tasks ts) λ pending. returned (first_task (sort http_leb pending))

-- What the requests do: GET /tasks, and PATCH /tasks/…/status, over the world they act on.
pub record TaskApi (W : Type 0) : Type 0 where
  pub fetch_tasks : W → Read TasksReply × W
  pub patch_status : ℤ → String → WmsReason → W → Read Payload × W

module _ {W : Type 0} (api : TaskApi W) where
  unfoldable pub get_next_pending_task_via_http : W → Read (Option HttpTask) × W
  get_next_pending_task_via_http w =
      let (reply, w') = api.fetch_tasks w in (read_then reply next_of_reply, w')

  unfoldable pub update_task_status_via_http : ℤ → String → WmsReason → W → Read HttpTask × W
  update_task_status_via_http id status reason w =
      let (reply, w') = api.patch_status id status reason w in
      (read_then reply (coerce_http_task status), w')
