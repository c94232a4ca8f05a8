-- ===== src/Errors.antt =====
-- src/errors.rs: the Python exceptions of the module, and the mapping from the errors of quinn and
-- web_transport_quinn to them. The children use one another in this order.
pub mod Classes
pub mod Exceptions
pub mod Foreign
pub mod Mapping
pub mod Laws
