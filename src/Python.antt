-- ===== src/Python.antt =====
-- The part of Python that the gateway's handlers rest on: values and exceptions.
pub mod Value
pub mod Exec
pub mod Interpreter
pub mod Yields
pub mod Steps
