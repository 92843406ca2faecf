-- ===== src/Pipeline/Actions.antt =====
-- sovereignflow/application/actions: what each action does to the context.
pub mod Config
pub mod Boundary
pub mod Budget
pub mod Transmission
pub mod RetrieveConfig
pub mod Retrieve
pub mod Routers
pub mod ConversationConfig
pub mod Dialog
pub mod Conversation
pub mod CallModelConfig
pub mod CallModel
