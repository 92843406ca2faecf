-- ===== src/Lib.antt =====
-- SovereignFlow: retrieval-augmented answers over documents with security labels.
--
-- A query comes with the authorization context of its caller. A pipeline of actions, read from a
-- definition, retrieves chunks, checks them against the caller's clearance, builds a context
-- within a budget, decides which model server may receive that context, calls it and finalizes the
-- answer. The files follow these parts (paths without the repository's folder `sovereignflow/`):
--
--   Result               domain/errors.py: the errors by class, with their codes and statuses.
--   Text                 Python's strings as lists of code points: `strip`, the order of texts;
--                        `_required` and `_normalized_values` of domain/models.py.
--   Value, Library       JSON values and floats; the functions of Python and of packages that the
--                        actions call (`lower`, `sha256`, `json`, formatting), as parameters.
--   Effect               methods that change an object and may raise.
--   Domain               domain/models.py: the dataclasses as records, each `__post_init__` as a
--                        function `new_...`. Security has the security models and
--                        `document_visible_to_subject`, Server has `context_security_requirement`
--                        and `model_server_satisfies_requirement`, Chunk, Profile and Conversation
--                        the documents, requests and conversations.
--   Pipeline             application/pipeline.py: Definition (the definitions of
--                        domain/models.py), Registry (`ActionRegistry`), Validator
--                        (`PipelineValidator`), Transition (`_next_step`, and the relation of the
--                        steps that the engine can come to), Context (`PipelineContext`), Run and
--                        Diagnostics (the audit records and `_diagnostics`), Engine
--                        (`PipelineEngine.execute`).
--   Pipeline.Actions     application/actions/: Config, Boundary and Budget (`_config.py` and
--                        `_retrieval.py`), Retrieve (`normalize_query.py`, `retrieve.py`,
--                        `expand_graph.py`, `manage_context_budget.py`, `require_evidence.py`,
--                        `finalize.py`), Routers (`loop_guard.py`), Transmission
--                        and CallModel.
--                        ConversationConfig, Dialog and Conversation (the actions on conversations
--                        and `_conversation.py`).
--   Services             application/: Authorization (`PipelineAuthorizationService`), Query
--                        (`RagQueryService`), IngestionBoundary, Payload and Ingestion
--                        (`DocumentIngestionService`), Conversations
--                        (`ConversationHistoryService`). Query runs the engine of Pipeline;
--                        Ingestion and Conversations have a repository as a record of operations,
--                        which their child Stored fills from Storage.
--   Storage              infrastructure/: Tables, Load and Ingestion
--                        (`PostgreSQLIngestionRepository`), Conversations
--                        (`PostgreSQLConversationHistory`), GraphRows and Graph
--                        (`PostgreSQLGraphTraversal`). A table is a list of rows, a statement
--                        a function on it, and a connection's block a transaction that an exception
--                        rolls back.
--   Tests                concrete inputs.
--
-- An exception is a value of `Error`; its message is kept only where it has no interpolated part,
-- otherwise it is the constant part. A method that changes the context is a function on
-- `ActionState`, the context with a world `W` that the ports act on; what was assigned before an
-- exception stays assigned.
--
-- Bounds: the walk of the validator recurses on `max_steps - len(path)`, which is what the source
-- itself compares, and the loop of the engine on `max_steps - sequence`, so that no fuel is added.
-- Numbers are Python's unbounded integers.
--
-- Not modelled: the variable action and the remaining routing actions of application/actions; the
-- services dataset_import.py, operations.py and policy_administration.py; the methods of
-- infrastructure/ingestion.py on import runs; the providers of infrastructure (Weaviate, HTTP,
-- authentication, access policies, audit files, YAML), which reach the pipeline and the services as
-- ports and are parameters here; failures of a database connection; the columns of times in the
-- tables of the ingestion, and the constraints that a command's constructor has checked; the HTTP
-- interface, the bootstrap, the command lines, the dataset generator and the demo, which are input
-- and output around these parts.
pub mod Prelude
pub mod Result
pub mod Text
pub mod Value
pub mod Library
pub mod Domain
pub mod Effect
pub mod Pipeline
pub mod Services
pub mod Storage
pub mod Tests
