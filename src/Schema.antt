-- ===== src/Schema.antt =====
-- app/schemas/agent_schemas.py: the data of a request and of its result, and the validators that
-- the program wrote for them. A value that `pydantic` would refuse is `none`.
pub mod Calendar
pub mod Model
pub mod Check
