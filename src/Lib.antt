-- ===== src/Lib.antt =====
-- The b-CAP protocol library of the DENSO robot packages: the C library in bcap_core, which the
-- ROS 2 nodes use to talk to a robot controller. A client (bCAPClient/bcap_client.c) keeps a table
-- of connections, turns each call into a packet of VARIANTs (bcap_common.c, dn_common.c), sends it
-- through a device of one of three types and waits for the answer, with retries. The node
-- denso_robot_core calls the client, and moves a robot in slave mode: every cycle it sends a pose
-- and takes the answer of the controller apart (denso_robot.cpp).
--
-- The files, and the code that each is about:
--   Prelude, Prelude/*    shared names: Boolean tests, lists over the native numbers, exclusive or,
--                         integers (Prelude/Int)
--   Hresult               the codes and the outcome of a function that may fail
--   Bytes                 memcpy_le of bcap_core/src/dn_device.c
--   Variant, Variant/*    VARIANT, SAFEARRAY and BSTR of bcap_core/include/bcap_core/dn_common.h;
--                         SysStringLen, SysAllocString, SysAllocStringLen, SafeArrayCreateVector and
--                         SafeArrayGetUBound of bcap_core/src/dn_common.c, with VariantClear and
--                         VariantCopy (Variant/Copy), the macro SubChangeType (Variant/Change) and
--                         VariantChangeType (Variant/ChangeType) and GetOptionValue
--                         (Variant/OptionValue)
--   Codec, Codec/*        bcap_vnt2bytary and bcap_vntary2bytary (Codec/Encode), bcap_bytary2vnt
--                         and bcap_bytary2vntary (Codec/Decode), the dates (Codec/Date), all of
--                         bcap_core/src/bcap_common.c; the layout of the data (Codec/Wire) and what
--                         arrives of a VARIANT (Codec/Received) are their specification
--   Packet, Packet/*      struct BCAP_PACKET, bcap_calc_size_packet, bcap_packet2bytary (Packet) and
--                         bcap_bytary2packet (Packet/Decode); the layout of a packet (Packet/Wire)
--                         and bcap_send (Packet/Send); its bytes on the line are in Packet/OnLine;
--                         bcap_recv (Packet/Receive), over a serial line (Packet/Receive/Serial),
--                         over TCP (Packet/Receive/Stream, Packet/Receive/Pipe) and over UDP
--                         (Packet/Receive/Datagram)
--   Crc, Crc/*            bcap_calc_crc
--   Device, Device/*      is_numeric, parse_conn_type, parse_conn_param_ether (Device/Ether) and
--                         parse_conn_param_serial (Device/Serial) of bcap_core/src/dn_device.c
--   Robotalk, Robotalk/*  rtk_param2packet, rtk_calc_crc and rtk_send (Robotalk) and rtk_recv
--                         (Robotalk/Receive) of bcap_core/src/dn_robotalk.c; the bytes on the line
--                         (Robotalk/Frame) are their specification
--   Client, Client/*      m_conn_param, find_open_address and check_address (Client), the options
--                         and bCap_Close_Client (Client/Options), bCap_Open_Client (Client/Open),
--                         send_receive (Client/Transfer), invoke_function (Client/Invoke) and the
--                         functions around it (Client/Calls and a file for each kind of object under
--                         it) of bcap_core/src/bCAPClient/bcap_client.c
--   Server, Server/*      push_vector, pop_vector and search_vector (Server/Vector), m_map_id
--                         (Server/MapId), bcap_callfunc (Server/Execute), receive_execute
--                         (Server/Receive) with the clients over UDP (Server/Children), the change
--                         of the vector (Server/Changes) and its options (Server/Options),
--                         bCap_SetCallFunc and the end of recv_thread (Server/Cleanup) of
--                         bcap_core/src/bCAPServer/bcap_server.c and bcap_core/include/bcap_core/
--                         bCAPServer/bcap_mapid.h; the client's retries and functions against the
--                         server are in Server/Once and Server/Agrees, and a full vector in
--                         Server/Full
--   Robot, Robot/*        class DensoRobot of denso_robot_core/src/denso_robot.cpp: its members and
--                         the functions put_* (Robot), CreateSendParameter (Robot/Send),
--                         ParseRecvParameter (Robot/Receive; what a controller answers is in
--                         Robot/Receive/Cycles), ExecSlaveMove (Robot/Move), ChangeMode
--                         with ExecTakeArm, ExecGiveArm and ExecSlaveMode (Robot/Mode), which has
--                         also DensoRobotCore::ChangeMode of denso_robot_core/src/denso_robot_core.cpp
--
-- State and outcomes. Integers are natural numbers with the wrap-around of their C types written
-- out; a signed number is its pattern. The output buffer with its offset is a record that each
-- copy passes on; the decoder reads at an offset of a list of bytes. A copy outside of a buffer or
-- a block is the outcome `fault`, a failing HRESULT is `failed`. The table of connections and the
-- state of everything outside of it are passed explicitly. The machine is LP64 with `wchar_t` of
-- four bytes. The server's memory of objects is a function from addresses to blocks, with the
-- pointers of its doubly linked vector; its threads appear as the situation that a call of
-- receive_execute meets.
--
-- Fuel. bcap_bytary2vnt calls itself for an array in an array; its fuel is the depth of arrays;
-- the length of a packet is more than that depth, since each level takes bytes. The loop `while
-- (1)` of send_receive ends only when the peer answers or bcap_recv fails; its fuel is the number
-- of packets that one wait may pass over. The loop of invoke_function over a format has fuel for
-- each character of the format and one round more; the release of the objects of a server has fuel
-- for each object and one round more. The loops of rtk_recv end when enough bytes have come; their
-- fuel is the number of calls of dn_recv in one loop and one more. So it is for the two loops of
-- bcap_recv, whose outer loop makes a round for each packet that is passed over.
--
-- Parameters: malloc (which sizes it grants), the arithmetic on double in the conversion of dates,
-- atoi, atol, atof and inet_addr of the C library, and, for the client, the mutexes and the
-- functions of the device (interface Net of Client); for the server, the functions that are
-- registered; dn_recv for bcap_recv and rtk_recv, and what a new block of memory holds; strtol and
-- its kin, wcscasecmp, the printing of numbers and the arithmetic on float and double for
-- VariantChangeType; for the robot, BCAPService with its ExecFunction, its timeout and its retry
-- count, which bCap_SetRetry brings into the range of the type of connection.
--
-- Not modelled: TPComm, RACString, ChangeVarType; the threads of the server and
-- its tree of nodes for TCP; what a packet that send_receive passes over leaves in the room for the
-- answer; the check_conn_param in front of rtk_send and rtk_recv; sockets, serial lines and threads,
-- which are calls of the operating system; the actions and subscriptions of the ROS nodes, the rest
-- of the C++ classes, the library tinyxml2, the launch files and the descriptions of robots.
pub mod Prelude
pub mod Hresult
pub mod Bytes
pub mod Variant
pub mod Codec
pub mod Packet
pub mod Crc
pub mod Device
pub mod Client
pub mod Robotalk
pub mod Server
pub mod Robot
