-- ===== src/Python.antt =====
-- What the program uses of the Python language: exceptions, methods that mutate and may raise, and
-- dictionaries.
pub mod Raises
pub mod Action
pub mod Dict
