-- ===== src/Condition.antt =====
-- config/condition.rs: the `when=` conditions on steps and tasks. `Syntax` has the types, `Lexer`
-- the tokenizer, `Parser` the parser and `Condition::parse`, `Eval` the evaluation; the other
-- children prove what the component promises.
pub mod Syntax
pub mod Lexer
pub mod Parser
pub mod Eval
mod Agreement
pub mod Preview
pub mod Total
pub mod RoundTrip
mod Examples
