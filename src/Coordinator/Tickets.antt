-- ===== src/Coordinator/Tickets.antt =====
-- internal/coordinator: EnableAdmission, trackTicket and releaseTicket of coordinator.go, and what
-- handleJobs of api.go does with a ticket. A request is named by a string of the model, under which
-- stands the ticket that its goroutine holds between Admit and trackTicket.
pub mod Slots
use distributed_image_proces.Prelude.{
  String, ◌≡◌, ite, false, none, some, List, [], string_discrete, lookup, insert, delete,
}
use distributed_image_proces.Admission.{Controller, Ticket, ticket, denied, admit, release}

pub record Front : Type 0 where
  pub admission : Controller
  -- The map `tickets`.
  pub tickets : List (String × Ticket)
  pub requests : List (String × Ticket)

-- EnableAdmission
unfoldable pub enable_admission : Controller → Front
enable_admission c = record { admission = c; tickets = []; requests = [] }

-- The tenant of a request: its header, or "default".
unfoldable pub tenant_of : String → String
tenant_of header = ite (string_discrete header "") "default" header

-- handleJobs up to Submit: the request gets a ticket, or is shed.
unfoldable pub begin_request : String → String → Front → Front
unfolding admit tenant_of
begin_request request header s =
    let r = admit (tenant_of header) s.admission in
    elim r.0 [
      | ticket tenant ↦ record s {
        admission = r.1;
        requests = insert request (record { tenant = tenant; once = false }) s.requests;
      }
      | denied _ ↦ record s { admission = r.1 }
    ]

-- handleJobs where Submit fails: the ticket is released.
unfoldable pub abandon_request : String → Ticket → Front → Front
unfolding release
abandon_request request t s = record s {
  admission = (release t s.admission).1;
  requests = delete request s.requests;
}

-- trackTicket
unfoldable pub track_ticket : String → Ticket → Front → Front
track_ticket job_id t s = record s { tickets = insert job_id t s.tickets }

-- handleJobs where Submit succeeds: the ticket is handed to the coordinator.
unfoldable pub finish_request : String → String → Ticket → Front → Front
unfolding track_ticket
finish_request request job_id t s =
    track_ticket job_id t (record s { requests = delete request s.requests })

-- releaseTicket
unfoldable pub release_ticket : String → Front → Front
unfolding release
release_ticket job_id s = elim (lookup job_id s.tickets) [
  | none ↦ record s { tickets = delete job_id s.tickets }
  | some t ↦ record s { admission = (release t s.admission).1; tickets = delete job_id s.tickets }
]

-- One step of the front: a request that begins under a new name, one that fails in Submit, one that
-- hands over its ticket for a job that has none, and the scheduler's job-done hook for any job.
pub data FrontStep : Front → Front → Type 0 where
  begins :
      {s : Front} (request header : String)
      → lookup request s.requests ≡ none
      → FrontStep s (begin_request request header s)
  abandons :
      {s : Front} (request : String) (t : Ticket)
      → lookup request s.requests ≡ some t
      → FrontStep s (abandon_request request t s)
  finishes :
      {s : Front} (request job_id : String) (t : Ticket)
      → lookup request s.requests ≡ some t
      → lookup job_id s.tickets ≡ none
      → FrontStep s (finish_request request job_id t s)
  ends : {s : Front} (job_id : String) → FrontStep s (release_ticket job_id s)

pub data FrontSteps : Front → Front → Type 0 where
  no_step : {s : Front} → FrontSteps s s
  then_step : {s t u : Front} → FrontSteps s t → FrontStep t u → FrontSteps s u
