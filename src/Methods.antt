-- ===== src/Methods.antt =====
-- The methods of nodejs/concept that send a request about a type or a thing and read the answer.
pub mod Messages
pub mod Calls
pub mod RoleTypes
pub mod ThingTypes
pub mod EntityTypes
pub mod RelationTypes
pub mod AttributeTypes
pub mod Things
pub mod Root
pub mod Items
pub mod Declared
