-- ===== src/Lib.antt =====
-- A model of Hardware-Monitor: a Windows service that reads sensors of CPU and graphics cards and
-- publishes them over OPC UA, the server that they go to, and the control center that shows them.
--
-- System_Info: workers poll the hardware. `Device` is System_Info/hardware/HardwareDevice and
-- DeviceSensor; `Driver` is System_Info/driver_client/DriverClient.cpp, and `Cpu` the CPU's device
-- and worker on top of it. A worker pushes a snapshot of its device to the queue (`Queue`,
-- OPC_UA/ClientQueue.cpp), which the client drains. `Telemetry` packs a snapshot for the server and
-- unpacks it again, `Nodes` finds or creates the nodes for it (both OPC_UA/utils.cpp and utils.h),
-- and `Publisher` is the client's addNodes and sendTelemetryPayload (OPC_UA/client.cpp), with
-- the folder that the server makes for the clients (`Publisher.Folder`). `Gpu` is
-- System_Info/hardware/GPU: the fetches through ADL, ADLX and NVAPI and the pools of cards.
-- `Workers` is the GPU worker, the deadlines of all workers and System_Info/HardwareManager.cpp.
-- `Credentials` is what client and server load from the PKI directory (OPC_UA/CustomClient.cpp,
-- OPC_UA/server.cpp); its `Memory` follows the allocations behind the client's certificates up to
-- ~CustomClient, on a heap of addresses, and its `Policies` is the array of security policies. The
-- server decides by `Access` (OPC_UA/AccessControlCustom.cpp) who may open a session and what a
-- session may do; `Layout` has the identifiers of the nodes (OPC_UA/shared_opc_ua_layout.h). The
-- control center (`ControlCenter` with its `Updates`, control_center/ControlCenterClient.cpp and
-- main.cpp) finds the devices on the server, subscribes to their sensors and draws the `Grid`
-- (control_center/DisplayGrid.cpp). `Perf` and `Logging` are the log files
-- (user_space_common/PerformanceLogger.h, OPC_UA/FileLogger.cpp).
--
-- Functions keep the names of the source in snake_case. A member function takes the object's state
-- as a record and returns the new one; a call that waits or never ends is `none`, `waits` or
-- `looping`. A call that may throw returns `ok` or `bad` beside the state that it leaves, so what
-- was done before an exception stays done. A mutex makes a call one step; a schedule of threads is
-- a list of calls. Text is a list of bytes.
--
-- drivers/windows/CPU: `Kernel` has the two drivers that answer the driver client, AMDCPUDriver and
-- IntelCPUDriver. `Kernel` itself and `Ioctl` are what both have in the same words: the parts of the
-- metric procedures and the handler EvtIoDeviceControl; `Lifecycle` is NonPnpDeviceAdd and the end
-- of DriverEntry; `Amd` and `Intel` have the metrics and the load of each. The static variables are
-- a record, a metric procedure is a function on it, and an access outside the output buffer or the
-- array of core states is `none`. `Client` puts runDriver on top of a loaded driver.
--
-- Parameters: `Ua` (node ids of open62541pp), `Service` (the services of an address space with the
-- laws that the client relies on), `Files` (the file system), `Floats` (float arithmetic) and the
-- records of answers: Machine of `Driver` (the driver, the allocator), Adl, Adlx and NvApi of
-- `Gpu`; the teardown of a client in `Credentials.Memory`; of `Kernel` the Readings (registers,
-- clocks, the SMN bus), Affinities (the affinity calls of the kernel, with the law IsRestoring),
-- WdfAnswers (the framework) and, in `Client`, how DeviceIoControl hands a request over
-- (IsHandedOver). `Tests` has an instance of each.
--
-- The loop of runDriver has no bound in the source; it runs on fuel, one unit for each call of the
-- driver. Sizes are numbers below 2 ^ 64 where the code computes with size_t, and required buffer
-- sizes wrap at 2 ^ 32 as the code's DWORD and ULONG do. In the drivers USHORT, ULONG and ULONGLONG
-- wrap at 2 ^ 16, 2 ^ 32 and 2 ^ 64; values of the performance counter are not negative.
--
-- Not modelled: COM and WMI with the deprecated queries of HardwareManager, loading of the vendors'
-- libraries, the settings that are only handed to open62541, the destructor of the server, the main
-- functions and what is only printed.
pub mod Prelude
pub mod Ua
pub mod Layout
pub mod Files
pub mod Access
pub mod Floats
pub mod Queue
pub mod Device
pub mod Driver
pub mod Cpu
pub mod Grid
pub mod Logging
pub mod Perf
pub mod Telemetry
pub mod Nodes
pub mod Service
pub mod Publisher
pub mod Tests
pub mod ControlCenter
pub mod Gpu
pub mod Workers
pub mod Credentials
pub mod Kernel
