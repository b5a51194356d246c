-- ===== src/Web.antt =====
-- lib/WebService/WebService.h and WebService.cpp: the device's own web pages. What pages quote is
-- escaped (Web/Escape, Web/Json), the log goes to a telnet client as well (Web/Console), and /setup
-- saves the device's settings. Routing, sockets and the fixed text of the pages are left out.
pub mod Escape
pub mod Entities
pub mod Json
pub mod Reading
pub mod Footer
pub mod Console
pub mod Seen
pub mod Device
mod Tests
