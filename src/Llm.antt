-- ===== src/Llm.antt =====
-- app/llm: the call limits of the model, and the calls with structured output.
pub mod RateLimit
pub mod StructuredCall
pub mod PromptJson
