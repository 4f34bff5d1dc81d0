-- ===== src/Lib.antt =====
-- The kernel of AgentQuilt: an agent's run is worked step by step, and every call that the agent
-- proposes goes through one dispatch, which decides, records and never repeats it.
--
-- The parts, and the files that model them (paths from the repository's root):
--   Store, Store/Rows    backend/app/kernel/{store,identity,declare,runs,model,context}/models.py: the
--                        rows. One transaction's view of the tables is the record `Db`; a function of
--                        the program that reads and writes them is a function from `Db` to a result.
--   Json, Runtime        the JSON of the ledger, and what the kernel takes from libraries: sha256,
--                        rfc8785, uuid4 and uuid5, `str`. They are parameters, the fields of `Runtime`.
--   Registry             backend/app/kernel/declare/registry.py: registering an operation and publishing
--                        its versions. Registry/Declaration has what an operation declares and the
--                        checks of it, Registry/Names the shape of a name. A body of an operation is a
--                        parameter.
--   Ledger               backend/app/kernel/declare/ledger.py: `commit` and `append`.
--   Identity             backend/app/kernel/identity/service.py: `effective_grants`, `args_hash`,
--                        `consume_approval`, `park_approval`.
--   Dispatch             backend/app/kernel/declare/service.py: `dispatch` and all that it calls.
--                        Dispatch/Calling has a call up to its refusal. `_write` is `write_call`, `_read` is
--                        `read_call`, `_spend` is `spend_approval`;
--                        the savepoint of `_write` is `attempt`, and `settle_attempt` goes back to the
--                        state before it on a conflict or a missing approval.
--   Runs                 backend/app/kernel/runs/service.py: `create`, `send`, `post`, `wake`, `events`,
--                        `cancel`.
--   Work                 backend/app/kernel/runs/work.py: `claim`, `_settle` (`settle`), `_state`
--                        (`set_state`), `_leave` (`leave`), `_dispatch_all` (`dispatch_all`), `_result`,
--                        `_expected_version`, `_drain` (`watermark` and `unread`).
--                        Work/Queue has the claim, `_state` and `_leave`.
--   Step                 the rest of backend/app/kernel/runs/work.py: `step`, `work_once`, `_intake`,
--                        `_transcript`, `_said`, `_journal`, over Work, Context and Model.
--   Tick                 backend/app/kernel/runs/tick.py: a pass, with its lead, reaping and expiry.
--   Governance           backend/app/modules/governance/service.py: `decide_approval`, `undo_action`.
--   Skills               backend/app/modules/skills/service.py: `directory`, `activate` and its operation.
--   Context              backend/app/kernel/context/service.py: the prefix and its slots, the tools, the
--                        key, `_fit`. Context/Slices has the slots, the layers and the slices,
--                        Context/Assembly the envelope, the manifest and `assemble`, and
--                        Context/Contributors the contributors that the program ships:
--                        backend/app/kernel/context/contributors.py and backend/app/modules/surfaces/.
--   Model                backend/app/kernel/model/service.py: `run` (`run_model`) under the budget.
--   Machine              the transactions above in any order: `Move` is one committed transaction, `Reach`
--                        a sequence of them. Kept has what every sequence keeps.
--   Tenancy              the reads across orgs of backend/app/kernel/identity/service.py and
--                        backend/app/kernel/store/service.py, and the dependencies of
--                        backend/app/serve.py, on rows that carry their org (`Rail`). Tenancy/Seeding is
--                        backend/app/kernel/store/seed.py.
--   Routes               backend/app/kernel/runs/router.py and backend/app/modules/governance/router.py.
--                        `in_session` is the transaction of a request; `_call` is `call_operation`.
--   Adapter              backend/app/kernel/model/adapter.py: the request made of a turn (`run_request`),
--                        around the provider's library.
--   Catalog              backend/app/kernel/declare/catalog.py: the page of the operations.
--   Base                 lists, Booleans, dictionaries and sorting that the others share.
--   Examples             one small organisation, with tests and witnesses.
--
-- How they interact: `claim` takes a queue row of a run; the step assembles a turn (Context), asks the
-- model (Model), dispatches the calls (Dispatch, which reads the Registry and the grants of Identity and
-- writes the Ledger) and settles. A call that waits for an approval parks the run; Governance or the Tick
-- answers it and hands the run back to the queue. A request comes in by Tenancy, which finds its org and
-- plane, and Routes.
--
-- What the model leaves out:
--   - the columns `org_id` and `environment_id`, but in Tenancy: row-level security shows a session one
--     org and one plane, so that they are the same in every row; and the timestamps, which nothing reads
--     back;
--   - row locks. Each function is one transaction's steps on the state that it finds; a claim is told
--     which runs other transactions hold, and a pass of the tick whether it has the lead. Machine puts
--     the transactions in sequence, as their row locks do;
--   - which arguments `rfc8785.dumps` cannot represent: `is_canonical` of Runtime tells it;
--   - the gaps that a rolled-back insert leaves in the identity column of the events;
--   - the texts of the registry's errors, which nothing reads: they are shortened;
--   - the frames of HTTP, the command line and its polling loops, migrations, the provider's library and
--     the engine;
--   - the global rows of seeding: the tier binding is fixed data, and publishing is Registry's.
-- The readings of the clock and the draws of uuid4 are numbered in the order in which the code takes
-- them. Nothing here runs on fuel: every loop is over a list.
pub mod Base
pub mod Json
pub mod Runtime
pub mod Store
pub mod Identity
pub mod Ledger
pub mod Registry
pub mod Dispatch
pub mod Runs
pub mod Work
pub mod Tick
pub mod Governance
pub mod Context
pub mod Model
pub mod Skills
pub mod Step
pub mod Machine
pub mod Tenancy
pub mod Routes
pub mod Adapter
pub mod Catalog
pub mod Examples
