-- ===== src/Macros.antt =====
-- varnish-macros/src: the macro `vmod`, from the syntax of a function to the model of it.
pub mod Syntax
pub mod Types
pub mod Output
pub mod Attributes
pub mod Params
pub mod Arguments
pub mod Functions
pub mod Modules
pub mod Items
pub mod Total
pub mod Names
pub mod Wrappers
mod Tests
